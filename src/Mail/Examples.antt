-- ===== src/Mail/Examples.antt =====
-- Runs over a mailbox with two claims for one issue.
use conductr.Prelude.{Text, List, [], ◌∷◌, some, ◌≡◌, refl, codes}
use conductr.Core.Signals.{MailKind, scope_claim, note, MailMessage}
use conductr.Mail.{overlap, check_scope, check_messages, IsReport, check_scope-IsReport}

abbrev message : Text → MailKind → MailMessage
message id payload = record { id = id; agent = codes "agent1"; sent_at = 0; payload = payload }

abbrev mailbox : List MailMessage
mailbox =
    message (codes "m1") (note (codes "hello"))
    ∷ message (codes "m2") (scope_claim 7 (codes "a.rs" ∷ []) [])
    ∷ message (codes "m3") (scope_claim 7 (codes "b.rs" ∷ codes "c.rs" ∷ []) [])
    ∷ []

check_scope_test :
    check_scope (some mailbox) 7 (codes "c.rs" ∷ codes "d.rs" ∷ [])
    ≡ overlap (codes "m3") (codes "c.rs" ∷ [])
unfolding check_scope check_messages
check_scope_test = refl

check_scope-IsReport_example :
    IsReport 7 (codes "c.rs" ∷ []) mailbox (check_scope (some mailbox) 7 (codes "c.rs" ∷ []))
check_scope-IsReport_example = check_scope-IsReport mailbox 7 (codes "c.rs" ∷ [])
