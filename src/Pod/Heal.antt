-- ===== src/Pod/Heal.antt =====
-- crates/conductr-pod/src/heal.rs: crashed sessions are started again. What `diagnose_all` found is
-- an argument, and so is what tmux answers to a line: the text of the error, if there is one, which
-- may depend on the lines sent before.
use conductr.Prelude.{
  Text, List, [], ◌∷◌, ◌++◌, Option, none, some, Bool, true, false, not, ◌&&◌, ◌||◌, if◌then◌else◌,
  map, codes, ◌≡◌, refl, arith, append-nil, append_assoc, sym, ◌∙◌, ap, Option-cases, inl, inr,
}
use mathlib.Core.Path.{ap₂}
use conductr.Prelude.Result.{Result, ok, err}
use conductr.Core.Sessions.{Diagnosis, Health, needs_heal}

pub data HealAction : Type 0 where
  restart_claude : (command : Text) → HealAction
  skip : (reason : Text) → HealAction

pub record HealPlan : Type 0 where
  pub session : Text
  pub action : HealAction

pub record HealOutcome : Type 0 where
  pub plan : HealPlan
  pub executed : Bool
  pub error : Option Text

-- The lines that were sent, each with the session, the oldest first.
abbrev pub Lines : Type 0
Lines = List (Text × Text)

abbrev pub SendLine : Type 0
SendLine = Lines → Text → Text → Option Text

unfoldable pub action_for : Health → Text → HealAction
action_for (Health.crashed l) command = restart_claude command
action_for (Health.idle m t) command = skip (codes "idle, awaiting input")
action_for (Health.working activity) command = skip (codes "working: " ++ activity)
action_for (Health.unknown reason) command = skip (codes "unclassified: " ++ reason)

unfoldable pub plan_for : Diagnosis → Text → HealPlan
plan_for d command = record { session = d.session.name; action = action_for d.health command }

-- One turn of the loop: the outcome, and the lines sent by then.
unfoldable pub heal_one : SendLine → Bool → Lines → HealPlan → HealAction → HealOutcome × Lines
heal_one send dry_run sent plan (restart_claude command) =
    if dry_run
    then (record { plan = plan; executed = false; error = none }, sent)
    else elim (send sent plan.session command) [
      | none ↦ (
        record { plan = plan; executed = true; error = none },
        sent ++ (plan.session, command) ∷ [],
      )
      | some e ↦ (
        record { plan = plan; executed = false; error = some e },
        sent ++ (plan.session, command) ∷ [],
      )
    ]
heal_one send dry_run sent plan (skip reason) =
    (record { plan = plan; executed = false; error = none }, sent)

unfoldable pub heal_loop :
    SendLine → Text → Bool → Lines → List Diagnosis → List HealOutcome × Lines
heal_loop send command dry_run sent [] = ([], sent)
heal_loop send command dry_run sent (d ∷ rest) =
    let plan = plan_for d command in
    let (outcome, sent') = heal_one send dry_run sent plan plan.action in
    let (outcomes, end) = heal_loop send command dry_run sent' rest in (outcome ∷ outcomes, end)

unfoldable pub heal_all {ℓ} :
    {E : Type ℓ}
    → SendLine
    → Result (List Diagnosis) E
    → Text
    → Bool
    → Result (List HealOutcome × Lines) E
heal_all send (ok diagnoses) command dry_run = ok (heal_loop send command dry_run [] diagnoses)
heal_all send (err e) command dry_run = err e

-- What is to be sent for one session.
abbrev pub restarts : Text → Bool → Diagnosis → Lines
restarts command dry_run d =
    if not dry_run && needs_heal d.health then (d.session.name, command) ∷ [] else []

abbrev pub all_restarts : Text → Bool → List Diagnosis → Lines
all_restarts command dry_run [] = []
all_restarts command dry_run (d ∷ rest) =
    restarts command dry_run d ++ all_restarts command dry_run rest

abbrev has_error : Option Text → Bool
has_error none = false
has_error (some e) = true

-- Whether a line was sent for this outcome.
abbrev pub was_sent : HealOutcome → Bool
was_sent o = o.executed || has_error o.error

heal_one-lines :
    (send : SendLine) (command : Text) (dry_run : Bool) (sent : Lines) (d : Diagnosis)
    (plan : HealPlan)
    → plan ≡ plan_for d command
    → ((heal_one send dry_run sent plan plan.action).1 ≡ sent ++ restarts command dry_run d)
      × (was_sent (heal_one send dry_run sent plan plan.action).0
          ≡ (not dry_run && needs_heal d.health))
unfolding heal_one plan_for action_for needs_heal
heal_one-lines send command true sent d plan e = ground (arith, append-nil sent)
heal_one-lines send command false sent d plan e =
    elim (Option-cases (send sent d.session.name command)) [
      | inl quiet ↦ ground (arith, append-nil sent)
      | inr (message, failed) ↦ ground (arith, append-nil sent)
    ]

heal_loop-lines :
    (send : SendLine) (command : Text) (dry_run : Bool) (sent : Lines) (ds : List Diagnosis)
    → ((heal_loop send command dry_run sent ds).1 ≡ sent ++ all_restarts command dry_run ds)
      × (map was_sent (heal_loop send command dry_run sent ds).0
          ≡ map (λ (d : Diagnosis). not dry_run && needs_heal d.health) ds)
unfolding heal_loop
heal_loop-lines send command dry_run sent [] = (sym (append-nil sent), refl)
heal_loop-lines send command dry_run sent (d ∷ ds) =
    let plan = plan_for d command in
    let (lines, was) = heal_one-lines send command dry_run sent d plan refl in
    let (later, rest) =
      heal_loop-lines send command dry_run (heal_one send dry_run sent plan plan.action).1 ds in
    (
      later
          ∙ ap (λ l. l ++ all_restarts command dry_run ds) lines
          ∙ append_assoc sent (restarts command dry_run d) (all_restarts command dry_run ds),
      ap₂ ◌∷◌ was rest,
    )

-- When the sessions could be diagnosed, healing returns outcomes. It sends exactly one line for each
-- crashed session, in the order of the sessions, the command to that session, and nothing in a dry
-- run or to any other session. Each outcome says by its `executed` or its error whether a line was
-- sent for its session.
pub heal_all-lines {ℓ} :
    {E : Type ℓ} (send : SendLine) (ds : List Diagnosis) (command : Text) (dry_run : Bool)
    → (out : List HealOutcome × Lines) × (heal_all {E = E} send (ok ds) command dry_run ≡ ok out)
      × (out.1 ≡ all_restarts command dry_run ds)
      × (map was_sent out.0 ≡ map (λ (d : Diagnosis). not dry_run && needs_heal d.health) ds)
unfolding heal_all
heal_all-lines send ds command dry_run =
    let (lines, was) = heal_loop-lines send command dry_run [] ds in
    (heal_loop send command dry_run [] ds, refl, lines, was)
