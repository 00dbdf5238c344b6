-- ===== src/Orchestrate/Isolation.antt =====
-- crates/conductr-orchestrate/src/isolation.rs: whether a ready issue is dispatched beside the open
-- branches of others. The clock is an argument: `now` is when `first_seen.elapsed()` is read.
pub mod Chord
use conductr.Prelude.{
  ℕ, ◌-◌, Text, List, [], ◌∷◌, ◌++◌, Option, none, some, Bool, true, false, not, ◌||◌,
  if◌then◌else◌, filter, is_empty, leb, ◌==◌, codes, map, length, join,
}
use conductr.Prelude.Decimal.{show_nat}
use conductr.Core.Types.{
  SafetyPreset, unhinged, feral, fast, strict, bureaucratic, SiblingStatus, green, amber, red,
  CiStatus, Pr,
}
use conductr.Core.Signals.{MailKind, yell}

pub data IsolationDecision : Type 0 where
  dispatch defer : IsolationDecision
  dispatch_with_yell : List MailKind → IsolationDecision
  dispatch_with_advisory : Text → IsolationDecision

unfoldable pub classify_sibling_ci : CiStatus → SiblingStatus
classify_sibling_ci CiStatus.passing = green
classify_sibling_ci CiStatus.pending = amber
classify_sibling_ci CiStatus.unknown = amber
classify_sibling_ci CiStatus.failing = red

-- The loop of `aggregate_sibling_status`; a red sibling ends it.
unfoldable pub aggregate_from : SiblingStatus → List Pr → SiblingStatus
unfolding classify_sibling_ci
aggregate_from worst [] = worst
aggregate_from worst (p ∷ rest) = elim (classify_sibling_ci p.ci) [
  | red ↦ red
  | amber ↦ aggregate_from amber rest
  | green ↦ aggregate_from worst rest
]

unfoldable pub aggregate_sibling_status : List Pr → SiblingStatus
unfolding aggregate_from
aggregate_sibling_status = aggregate_from green

abbrev pub is_linked_to : ℕ → Option ℕ → Bool
is_linked_to issue none = false
is_linked_to issue (some n) = n == issue

unfoldable pub sibling_prs : ℕ → List Pr → List Pr
sibling_prs issue = filter (λ (p : Pr). not (is_linked_to issue p.linked_issue))

-- The derived `Debug` of `CiStatus`.
ci_debug : CiStatus → Text
ci_debug CiStatus.passing = codes "Passing"
ci_debug CiStatus.failing = codes "Failing"
ci_debug CiStatus.pending = codes "Pending"
ci_debug CiStatus.unknown = codes "Unknown"

unfoldable pub yell_for : ℕ → Pr → MailKind
unfolding ci_debug
yell_for issue p = yell issue p.head_ref (
    codes "Potential post-merge conflict: sibling branch '"
    ++ p.head_ref
    ++ codes "' is open (ci: "
    ++ ci_debug p.ci
    ++ codes ")")

unfoldable pub advisory_for : List Pr → Text
unfolding show_nat
advisory_for siblings =
    codes "Advisory: "
    ++ show_nat (length siblings)
    ++ codes " sibling branch(es) are open and may overlap with your work: "
    ++ join (codes ", ") (map (λ (p : Pr). p.head_ref) siblings)
    ++ codes ". This is informational only — your routine will proceed normally."

-- Whether the soft chord has waited long enough.
abbrev pub timed_out : ℕ → Option ℕ → ℕ → Bool
timed_out now none timeout = false
timed_out now (some first_seen) timeout = leb timeout (now - first_seen)

unfoldable pub strict_decision : SiblingStatus → Bool → IsolationDecision
strict_decision green late = dispatch
strict_decision red late = dispatch
strict_decision amber late = if late then dispatch else defer

unfoldable pub decide :
    (now : ℕ) (preset : SafetyPreset) (issue : ℕ) (siblings : List Pr)
    (soft_chord_first_seen : Option ℕ) (soft_chord_timeout : ℕ)
    → IsolationDecision
unfolding yell_for advisory_for strict_decision aggregate_sibling_status
decide now unhinged issue siblings first_seen timeout = dispatch
decide now feral issue siblings first_seen timeout =
    if is_empty siblings then dispatch else dispatch_with_yell (map (yell_for issue) siblings)
decide now fast issue siblings first_seen timeout =
    if is_empty siblings then dispatch else dispatch_with_advisory (advisory_for siblings)
decide now strict issue siblings first_seen timeout =
    if is_empty siblings
    then dispatch
    else strict_decision (aggregate_sibling_status siblings) (timed_out now first_seen timeout)
decide now bureaucratic issue siblings first_seen timeout = dispatch
