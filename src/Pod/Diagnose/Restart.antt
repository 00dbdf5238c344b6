-- ===== src/Pod/Diagnose/Restart.antt =====
-- Diagnosing and healing together: which sessions are sent a line.
use conductr.Prelude.{
  ℕ, Text, List, [], ◌∷◌, Option, none, some, Bool, not, ◌&&◌, if◌then◌else◌, filter, flat_map, ◌≡◌,
  refl, ap, ◌∙◌, arith, Bool-cases, Option-cases, inl, inr,
}
use conductr.Prelude.Result.{Result, ok, err, ◌>>=◌, Result-cases}
use conductr.Core.Sessions.{TmuxSession, Diagnosis, needs_heal}
use conductr.Pod.Heal.{HealOutcome, Lines, SendLine, heal_all, all_restarts, heal_all-lines}
use conductr.Pod.Diagnose.{
  Tmux, TmuxError, classify_pane, looks_like_claude_tui, is_blank_pane, diagnose_session, is_wanted,
  diagnose_loop, diagnose_all, working_activity,
}

-- A pane with something in it, and no agent.
abbrev pub is_crashed : Text → Bool
is_crashed pane = not (is_blank_pane pane) && not (looks_like_claude_tui pane)

needs_heal-classify_pane : (pane : Text) → needs_heal (classify_pane pane) ≡ is_crashed pane
unfolding needs_heal classify_pane
needs_heal-classify_pane pane = elim (Option-cases (working_activity pane)) [
  | inl e ↦ ground arith
  | inr (activity, e) ↦ ground arith
]

-- The first session whose pane tmux does not show, and why.
abbrev pub first_failure : Tmux → List TmuxSession → Option TmuxError
first_failure tmux [] = none
first_failure tmux (s ∷ rest) = elim (tmux.capture_pane s.name) [
  | err e ↦ some e
  | ok pane ↦ first_failure tmux rest
]

abbrev pub line_if_crashed : Tmux → Text → Bool → TmuxSession → Lines
line_if_crashed tmux command dry_run s = elim (tmux.capture_pane s.name) [
  | err e ↦ []
  | ok pane ↦ if not dry_run && is_crashed pane then (s.name, command) ∷ [] else []
]

abbrev pub expected : Tmux → Text → Bool → List TmuxSession → Result Lines TmuxError
expected tmux command dry_run sessions = elim (first_failure tmux sessions) [
  | some e ↦ err e
  | none ↦ ok (flat_map (line_if_crashed tmux command dry_run) sessions)
]

-- The lines among the results of healing.
abbrev pub sent : Result (List HealOutcome × Lines) TmuxError → Result Lines TmuxError
sent (ok out) = ok out.1
sent (err e) = err e

abbrev to_send : Text → Bool → Result (List Diagnosis) TmuxError → Result Lines TmuxError
to_send command dry_run (ok ds) = ok (all_restarts command dry_run ds)
to_send command dry_run (err e) = err e

diagnose_loop-expected :
    (tmux : Tmux) (now : ℕ) (pattern : Option Text) (command : Text) (dry_run : Bool)
    (sessions : List TmuxSession)
    → to_send command dry_run (diagnose_loop tmux now pattern sessions)
      ≡ expected tmux command dry_run (filter (is_wanted pattern) sessions)
unfolding diagnose_loop diagnose_session
diagnose_loop-expected tmux now pattern command dry_run [] = refl
diagnose_loop-expected tmux now pattern command dry_run (s ∷ rest) =
    let ih = diagnose_loop-expected tmux now pattern command dry_run rest in
    elim (Bool-cases (is_wanted pattern s)) [
      | inr e ↦ ground (arith, ih)
      | inl e ↦ elim (Result-cases (tmux.capture_pane s.name)) [
        | inr (bad, f) ↦ ground arith
        | inl (pane, f) ↦ elim (Result-cases (diagnose_loop tmux now pattern rest)) [
          | inr (bad, g) ↦
              elim (Option-cases (first_failure tmux (filter (is_wanted pattern) rest))) [
                | inl h ↦ ground (arith, ih)
                | inr (why, h) ↦ ground (arith, ih)
              ]
          | inl (ds, g) ↦
              elim (Option-cases (first_failure tmux (filter (is_wanted pattern) rest))) [
                | inl h ↦ ground (arith, ih, needs_heal-classify_pane pane)
                | inr (why, h) ↦ ground (arith, ih)
              ]
        ]
      ]
    ]

sent-heal_all :
    (send : SendLine) (r : Result (List Diagnosis) TmuxError) (command : Text) (dry_run : Bool)
    → sent (heal_all send r command dry_run) ≡ to_send command dry_run r
unfolding heal_all
sent-heal_all send (ok ds) command dry_run =
    let (out, e, f, g) = heal_all-lines {E = TmuxError} send ds command dry_run in
    ap sent e ∙ ap ok f
sent-heal_all send (err e) command dry_run = refl

-- Diagnosing the sessions whose name holds the pattern and healing them sends the command, in the
-- order of the sessions, to exactly those whose pane holds more than line breaks and spaces but not
-- both a prompt and a mark of an agent, and to none in a dry run. If tmux does not show one of
-- the panes, nothing is sent, and the first such pane's error is the result.
pub heal_all-diagnose_all :
    (send : SendLine) (tmux : Tmux) (now : ℕ) (pattern : Option Text) (command : Text)
    (dry_run : Bool) (sessions : List TmuxSession)
    → tmux.list_sessions ≡ ok sessions
    → sent (heal_all send (diagnose_all tmux now pattern) command dry_run)
      ≡ expected tmux command dry_run (filter (is_wanted pattern) sessions)
unfolding diagnose_all
heal_all-diagnose_all send tmux now pattern command dry_run sessions e =
    sent-heal_all send (diagnose_all tmux now pattern) command dry_run
    ∙ (ap
          (λ (r : Result (List TmuxSession) TmuxError).
            to_send command dry_run (r >>= diagnose_loop tmux now pattern))
          e
        ∙ diagnose_loop-expected tmux now pattern command dry_run sessions)
