-- ===== src/Mail.antt =====
-- crates/conductr-mail/src/dedup.rs and synthesise.rs: claims of files on the bulletin board. What
-- the mailbox holds, and what it answers to a message, are arguments.
use conductr.Prelude.{
  ℕ, Text, List, [], ◌∷◌, ◌++◌, Option, none, some, Bool, true, false, not, ◌&&◌, if◌then◌else◌,
  filter, all, is_empty, text_mem, ◌==◌, ◌≡◌, ◌≢◌, refl, arith, ap, sym, subst, Bool-cases, inl,
  inr,
}
use conductr.Core.Signals.{
  MailKind, scope_claim, synthesis_request, synthesis_proposal, note, yell, MailMessage,
}
mod Examples

pub data ScopeReport : Type 0 where
  clear : ScopeReport
  overlap : (existing_message_id : Text) (conflicting_files : List Text) → ScopeReport

-- The candidate files that are claimed too.
abbrev pub conflicts : List Text → List Text → List Text
conflicts candidate_files files = filter (λ f. text_mem f files) candidate_files

-- The loop over the messages.
unfoldable pub check_messages : ℕ → List Text → List MailMessage → ScopeReport
check_messages issue candidate_files [] = clear
check_messages issue candidate_files (msg ∷ rest) =
    let later = check_messages issue candidate_files rest in
    elim msg.payload [
      | scope_claim claimed_issue files summary ↦
          if not (claimed_issue == issue)
          then later
          else if is_empty (conflicts candidate_files files)
          then later
          else overlap msg.id (conflicts candidate_files files)
      | _ ↦ later
    ]

-- `none`: the mailbox could not be read.
unfoldable pub check_scope : Option (List MailMessage) → ℕ → List Text → ScopeReport
check_scope none issue candidate_files = clear
check_scope (some messages) issue candidate_files = check_messages issue candidate_files messages

-- The candidate files that a message claims for the issue.
abbrev pub claimed_by : ℕ → List Text → MailKind → List Text
claimed_by issue candidate_files (scope_claim claimed files summary) =
    if claimed == issue then conflicts candidate_files files else []
claimed_by issue candidate_files _ = []

abbrev pub claims_none : ℕ → List Text → List MailMessage → Bool
claims_none issue candidate_files =
    all (λ (m : MailMessage). is_empty (claimed_by issue candidate_files m.payload))

-- What a report says of the messages.
abbrev pub IsReport : ℕ → List Text → List MailMessage → ScopeReport → Type 0
IsReport issue candidate_files messages clear = claims_none issue candidate_files messages ≡ true
IsReport issue candidate_files messages (overlap id files) =
    (before : List MailMessage) × (m : MailMessage) × (after : List MailMessage) × (messages
      ≡ before ++ m ∷ after)
    × (claims_none issue candidate_files before ≡ true)
    × (m.id ≡ id)
    × (claimed_by issue candidate_files m.payload ≡ files)
    × (is_empty files ≡ false)

IsReport-later :
    (issue : ℕ) (candidate_files : List Text) (m : MailMessage) (rest : List MailMessage)
    (r : ScopeReport)
    → is_empty (claimed_by issue candidate_files m.payload) ≡ true
    → IsReport issue candidate_files rest r
    → IsReport issue candidate_files (m ∷ rest) r
IsReport-later issue candidate_files m rest clear e h = ground arith
IsReport-later issue candidate_files m rest (overlap id files) e
      (before, found, after, same, earlier, named, claimed, some_file) =
    (m ∷ before, found, after, ap (λ l. m ∷ l) same, ground arith, named, claimed, some_file)

check_messages-step :
    (issue : ℕ) (candidate_files : List Text) (m : MailMessage) (rest : List MailMessage)
    → check_messages issue candidate_files (m ∷ rest) ≡ (
        if is_empty (claimed_by issue candidate_files m.payload)
        then check_messages issue candidate_files rest
        else overlap m.id (claimed_by issue candidate_files m.payload))
unfolding check_messages
check_messages-step issue candidate_files m rest = ground arith

-- A check of a mailbox that can be read reports an overlap exactly with the first message that
-- claims, for the same issue, one of the candidate files, and names exactly the candidate files that
-- this message claims; if there is no such message the report is clear.
pub check_scope-IsReport :
    (messages : List MailMessage) (issue : ℕ) (candidate_files : List Text)
    → IsReport issue candidate_files messages (check_scope (some messages) issue candidate_files)
unfolding check_scope
check_scope-IsReport [] issue candidate_files = unfold check_messages in refl
check_scope-IsReport (m ∷ rest) issue candidate_files =
    elim (Bool-cases (is_empty (claimed_by issue candidate_files m.payload))) [
      | inl e ↦
          rw (check_messages-step issue candidate_files m rest, e)
            (IsReport-later issue candidate_files m rest (check_messages issue candidate_files rest)
              e (check_scope-IsReport rest issue candidate_files))
      | inr e ↦
          rw (check_messages-step issue candidate_files m rest, e)
            ([], m, rest, refl, refl, refl, refl, e)
    ]

-- The message is sent, and the mailbox's answer is the result.
unfoldable pub request_synthesis {ℓ} :
    {R : Type ℓ} → (send : Text → MailKind → R) → (agent : Text) → ℕ → List ℕ → R
request_synthesis send agent issue pr_numbers = send agent (synthesis_request issue pr_numbers)
