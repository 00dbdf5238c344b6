-- ===== src/Core/Sessions.antt =====
-- crates/conductr-core/src/types.rs: tmux sessions and what a diagnosis of one says. A point in time
-- is its number of seconds, so that it can be compared.
use conductr.Prelude.Int.{ℤ}
use conductr.Prelude.{ℕ, Text, List, Option, Bool, true, false}

pub record TmuxSession : Type 0 where
  pub name : Text
  pub created : ℕ
  pub last_activity : ℕ
  pub windows : ℕ
  pub attached : Bool
  pub cwd : Option Text

pub data Health : Type 0 where
  idle : (last_message tokens : Option Text) → Health
  working : (activity : Text) → Health
  crashed : (last_shell_line : Option Text) → Health
  unknown : (reason : Text) → Health

unfoldable pub is_alive : Health → Bool
is_alive (Health.idle m t) = true
is_alive (Health.working a) = true
is_alive _ = false

unfoldable pub needs_heal : Health → Bool
needs_heal (Health.crashed l) = true
needs_heal _ = false

pub record Diagnosis : Type 0 where
  pub session : TmuxSession
  pub health : Health
  pub idle_seconds : ℤ
  pub remote_control : Bool
  pub tail : List Text
