-- ===== src/Core/Signals.antt =====
-- crates/conductr-core/src/signals.rs: the messages of the shared bulletin board.
use conductr.Prelude.{ℕ, Text, List}

pub data MailKind : Type 0 where
  scope_claim : (issue : ℕ) (files : List Text) (summary : Text) → MailKind
  synthesis_request : (issue : ℕ) (pr_numbers : List ℕ) → MailKind
  synthesis_proposal : (issue : ℕ) (request_id body : Text) → MailKind
  note : (text : Text) → MailKind
  yell : (issue : ℕ) (sibling_branch message : Text) → MailKind

pub record MailMessage : Type 0 where
  pub id : Text
  pub agent : Text
  pub sent_at : ℕ
  pub payload : MailKind
