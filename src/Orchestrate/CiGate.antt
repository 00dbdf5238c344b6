-- ===== src/Orchestrate/CiGate.antt =====
-- crates/conductr-orchestrate/src/ci_gate.rs, with its types of conductr-core/src/types.rs: whether
-- a branch may be merged under a preset.
pub mod Gate
use conductr.Prelude.{
  ℕ, Text, List, [], ◌∷◌, Option, none, some, Bool, true, false, not, ◌||◌, if◌then◌else◌, any,
  filter, is_empty,
}
use conductr.Core.Types.{SafetyPreset, unhinged, feral, fast, strict, bureaucratic}

pub data CheckStatus : Type 0 where
  green amber red pending transient : CheckStatus

pub record Check : Type 0 where
  pub name : Text
  pub status : CheckStatus
  pub required : Bool

pub record Branch : Type 0 where
  pub head_ref : Text
  pub checks : List Check
  pub review_approved : Bool
  pub linked_issue_closed : Bool
  pub adr_present : Bool

pub data BlockReason : Type 0 where
  no_required_check_green review_not_approved linked_issue_not_closed adr_not_present : BlockReason
  required_check_failed advisory_check_failed : Text → BlockReason

pub record RetryReason : Type 0 where
  pub check_name : Text

pub data MergeDecision : Type 0 where
  allowed : MergeDecision
  blocked_by : BlockReason → MergeDecision
  retry_once : RetryReason → MergeDecision

abbrev pub is_green : CheckStatus → Bool
is_green green = true
is_green _ = false

abbrev pub required_checks : List Check → List Check
required_checks = filter (λ (c : Check). c.required)

unfoldable pub feral_predicate : List Check → MergeDecision
feral_predicate required =
    if is_empty required || any (λ (c : Check). is_green c.status) required
    then allowed
    else blocked_by no_required_check_green

-- The loop of FAST over the required checks.
unfoldable pub fast_predicate : List Check → MergeDecision
fast_predicate [] = allowed
fast_predicate (check ∷ rest) =
    if is_green check.status
    then fast_predicate rest
    else blocked_by (required_check_failed check.name)

abbrev pub failure : Check → BlockReason
failure check =
    if check.required then required_check_failed check.name else advisory_check_failed check.name

-- The loop of STRICT; `seen` is the first transient check so far.
unfoldable pub strict_loop : Option Text → List Check → MergeDecision
strict_loop none [] = allowed
strict_loop (some name) [] = retry_once (record { check_name = name })
strict_loop seen (check ∷ rest) = elim check.status [
  | green ↦ strict_loop seen rest
  | transient ↦ strict_loop (elim seen [ none ↦ some check.name | some n ↦ some n ]) rest
  | _ ↦ blocked_by (failure check)
]

unfoldable pub strict_predicate : Branch → MergeDecision
unfolding strict_loop
strict_predicate branch = strict_loop none branch.checks

unfoldable pub procedure_gates : Branch → MergeDecision
procedure_gates branch =
    if not branch.review_approved
    then blocked_by review_not_approved
    else if not branch.linked_issue_closed
    then blocked_by linked_issue_not_closed
    else if not branch.adr_present
    then blocked_by adr_not_present
    else allowed

-- BUREAUCRATIC: the loop over all checks, and then the gates that are no checks.
unfoldable pub bureaucratic_loop : Branch → List Check → MergeDecision
unfolding procedure_gates
bureaucratic_loop branch [] = procedure_gates branch
bureaucratic_loop branch (check ∷ rest) =
    if is_green check.status then bureaucratic_loop branch rest else blocked_by (failure check)

unfoldable pub can_merge : Branch → SafetyPreset → MergeDecision
unfolding feral_predicate fast_predicate strict_predicate bureaucratic_loop
can_merge branch unhinged = allowed
can_merge branch feral = feral_predicate (required_checks branch.checks)
can_merge branch fast = fast_predicate (required_checks branch.checks)
can_merge branch strict = strict_predicate branch
can_merge branch bureaucratic = bureaucratic_loop branch branch.checks
