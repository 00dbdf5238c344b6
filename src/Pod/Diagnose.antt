-- ===== src/Pod/Diagnose.antt =====
-- crates/conductr-pod/src/diagnose.rs and session.rs: what the text of a pane says about the agent in
-- it, and the session that is made if there is none. What tmux answers is an argument; the time is a
-- number of seconds.
pub mod Restart
use conductr.Prelude.{
  ℕ, ◌-◌, Text, List, [], ◌∷◌, ◌++◌, Option, none, some, Bool, true, false, not, ◌&&◌, ◌||◌,
  if◌then◌else◌, ◌==◌, any, all, filter, find, take, codes, trim, trim_start, starts_with,
  strip_prefix, text_contains, text_eq, is_ascii_digit, is_empty, ◌≡◌, refl, arith,
}
use mathlib.Core.List.{reverse}
use conductr.Prelude.Int.{pos}
use conductr.Prelude.Result.{Result, ok, err, ◌>>=◌}
use conductr.Prelude.Split.{lines, split_at, ends_with}
use conductr.Core.Sessions.{TmuxSession, Health, Diagnosis}

-- `TmuxError`.
pub data TmuxError : Type 0 where
  not_installed no_server : TmuxError
  exit : (args : Text) (status : ℕ) (stderr : Text) → TmuxError
  io parse : (text : Text) → TmuxError

-- The answers of one tmux server: the sessions, and the text of a session's pane.
pub record Tmux : Type 0 where
  pub list_sessions : Result (List TmuxSession) TmuxError
  pub capture_pane : Text → Result Text TmuxError

unfoldable pub remote_control_active : Text → Bool
remote_control_active pane =
    text_contains (codes "/remote-control is active") pane
    || text_contains (codes "/rc active") pane

abbrev markers : List Text
markers =
    codes "Claude Code v"
    ∷ codes "▐▛███▜▌"
    ∷ codes "auto mode on"
    ∷ codes "shift+tab to cycle"
    ∷ codes "/effort to tune"
    ∷ codes "tokens"
    ∷ []

unfoldable pub looks_like_claude_tui : Text → Bool
looks_like_claude_tui pane =
    any (λ m. text_contains m pane) markers && text_contains (codes "❯") pane

abbrev is_rule : ℕ → Bool
is_rule c = c == 0x2500 || c == 0x2501 || c == b'-' || c == b' '

unfoldable pub is_status_footer : Text → Bool
is_status_footer l =
    text_contains (codes "auto mode on") l
    || text_contains (codes "tokens") l
    || text_contains (codes "Auto-update") l
    || starts_with (codes "⏵⏵") l
    || all is_rule l

abbrev pub is_prompt : Text → Bool
is_prompt l = starts_with (codes "❯") (trim_start l)

-- The lines behind the last prompt.
abbrev pub after_last_prompt : List Text → Option (List Text)
after_last_prompt [] = none
after_last_prompt (l ∷ rest) =
    let later = after_last_prompt rest in
    elim later [ some behind ↦ some behind | none ↦ if is_prompt l then some rest else none ]

abbrev pub is_spinner : Text → Bool
is_spinner l = starts_with (codes "✻") l || starts_with (codes "✽") l || starts_with (codes "✺") l

-- The loop over those lines.
unfoldable pub find_activity : List Text → Option Text
find_activity [] = none
find_activity (line ∷ rest) =
    let later = find_activity rest in
    if is_empty (trim line) || is_status_footer (trim line)
    then later
    else if is_spinner (trim line)
    then some (trim line)
    else later

unfoldable pub working_activity : Text → Option Text
working_activity pane = elim (after_last_prompt (lines pane)) [
  | none ↦ none
  | some behind ↦ find_activity behind
]

unfoldable pub is_placeholder_hint : Text → Bool
is_placeholder_hint s = starts_with (codes "Try \"") s && ends_with (codes "\"") s

-- What one line says, if it is a message.
abbrev pub message_of : Text → Option Text
message_of line = elim (strip_prefix (codes "❯") (trim_start line)) [
  | none ↦ none
  | some rest ↦
      if not (is_empty (trim rest)) && not (is_placeholder_hint (trim rest))
      then some (trim rest)
      else none
]

abbrev or_else : Option Text → Option Text → Option Text
or_else none b = b
or_else (some a) b = some a

unfoldable pub last_message_from : Option Text → List Text → Option Text
last_message_from found [] = found
last_message_from found (line ∷ rest) = last_message_from (or_else (message_of line) found) rest

unfoldable pub last_user_or_assistant_message : Text → Option Text
last_user_or_assistant_message pane = last_message_from none (lines pane)

abbrev take_while : (ℕ → Bool) → Text → Text
take_while p [] = []
take_while p (c ∷ s) = if p c then c ∷ take_while p s else []

abbrev is_token_char : ℕ → Bool
is_token_char c = is_ascii_digit c || c == b'.' || c == b'k' || c == b'K' || c == b'M'

-- The number before `tokens`, if it is not empty.
abbrev token_part : Text → Option Text
token_part line = elim (split_at (codes "tokens") line) [
  | none ↦ none
  | some (before, after) ↦
      let part = reverse (take_while is_token_char (trim_start (reverse before))) in
      if is_empty part then none else some (part ++ codes " tokens")
]

unfoldable pub first_token_part : List Text → Option Text
first_token_part [] = none
first_token_part (line ∷ rest) = or_else (token_part line) (first_token_part rest)

unfoldable pub token_count : Text → Option Text
token_count pane = first_token_part (reverse (lines pane))

-- The pane holds nothing but line breaks and spaces.
abbrev pub is_blank_pane : Text → Bool
is_blank_pane pane = all (λ c. c == 10 || c == b' ') pane

abbrev not_blank : Text → Bool
not_blank l = not (is_empty (trim l))

unfoldable pub classify_pane : Text → Health
classify_pane pane =
    if is_blank_pane pane
    then Health.unknown (codes "empty pane")
    else if not (looks_like_claude_tui pane)
    then Health.crashed (find not_blank (reverse (lines pane)))
    else elim (working_activity pane) [
      | some activity ↦ Health.working activity
      | none ↦ Health.idle (last_user_or_assistant_message pane) (token_count pane)
    ]

abbrev tail_of : Text → List Text
tail_of pane = reverse (take 8 (reverse (filter not_blank (lines pane))))

unfoldable pub diagnose_session : Tmux → ℕ → TmuxSession → Result Diagnosis TmuxError
diagnose_session tmux now session = tmux.capture_pane session.name >>= (λ pane. ok (record {
  session = session;
  health = classify_pane pane;
  idle_seconds = pos (now - session.last_activity);
  remote_control = remote_control_active pane;
  tail = tail_of pane;
}))

abbrev pub is_wanted : Option Text → TmuxSession → Bool
is_wanted none s = true
is_wanted (some p) s = text_contains p s.name

unfoldable pub diagnose_loop :
    Tmux → ℕ → Option Text → List TmuxSession → Result (List Diagnosis) TmuxError
diagnose_loop tmux now pattern [] = ok []
diagnose_loop tmux now pattern (s ∷ rest) =
    let later = diagnose_loop tmux now pattern rest in
    if is_wanted pattern s
    then diagnose_session tmux now s >>= (λ d. later >>= (λ ds. ok (d ∷ ds)))
    else later

unfoldable pub diagnose_all : Tmux → ℕ → Option Text → Result (List Diagnosis) TmuxError
diagnose_all tmux now pattern = tmux.list_sessions >>= diagnose_loop tmux now pattern

abbrev pub named : Text → TmuxSession → Bool
named name s = text_eq s.name name

unfoldable pub diagnose_one : Tmux → ℕ → Text → Result Diagnosis TmuxError
diagnose_one tmux now name = tmux.list_sessions >>= (λ sessions. elim (find (named name) sessions) [
  | none ↦ err (parse (codes "no such session: " ++ name))
  | some s ↦ diagnose_session tmux now s
])

pub data SessionState : Type 0 where
  created : SessionState
  existing : Health → SessionState

-- The sessions are listed once here and once more in `diagnose_one`, which may see another answer;
-- `new_session` is what tmux answers to the creation of one.
unfoldable pub ensure_session :
    Tmux
    → Tmux
    → (Text → Text → Result (Unit {0}) TmuxError)
    → ℕ
    → Text
    → Text
    → Result SessionState TmuxError
ensure_session tmux later new_session now name cwd = tmux.list_sessions >>= (λ sessions.
    if any (named name) sessions
    then diagnose_one later now name >>= (λ d. ok (existing d.health))
    else new_session name cwd >>= (λ done. ok created))
