-- ===== src/Orchestrate/Classifier.antt =====
-- crates/conductr-orchestrate/src/classifier.rs: the bucket of an issue.
pub mod Buckets
use conductr.Prelude.{
  ℕ, Text, List, [], ◌∷◌, ◌++◌, Option, none, some, Bool, true, false, not, ◌||◌, ◌&&◌,
  if◌then◌else◌, filter, find, is_empty, contains, codes, starts_with, ◌==◌,
}
use conductr.Prelude.Decimal.{show_nat}
use conductr.Core.Types.{Issue, IssueState, Pr, PrState, CiStatus, Bucket, Classification, is_human}
use conductr.Orchestrate.Deps.{Regexes, parse_dependencies}
use conductr.Orchestrate.Isolation.{is_linked_to}

abbrev pub is_closed : IssueState → Bool
is_closed IssueState.closed = true
is_closed IssueState.open_ = false

abbrev pub is_open_pr : PrState → Bool
is_open_pr PrState.open_ = true
is_open_pr _ = false

unfoldable pub branch_prefix : ℕ → Text
unfolding show_nat
branch_prefix issue = codes "claude/issue-" ++ show_nat issue ++ codes "-"

-- The open PR of an issue: by its link, or by the name of its branch.
unfoldable pub is_pr_of : ℕ → Pr → Bool
is_pr_of issue p =
    is_open_pr p.state
    && (is_linked_to issue p.linked_issue || starts_with (branch_prefix issue) p.head_ref)

abbrev pub pr_bucket : CiStatus → Bucket
pr_bucket CiStatus.failing = Bucket.pr_failing
pr_bucket _ = Bucket.pr_open

abbrev plain : ℕ → Bucket → List ℕ → Classification
plain issue bucket blocking = record {
  issue = issue;
  bucket = bucket;
  blocking = blocking;
  pr = none;
}

-- The dependencies that are not closed.
unfoldable pub blocking_of : Regexes → Issue → List ℕ → List ℕ
unfolding parse_dependencies
blocking_of re issue closed_issues =
    filter (λ d. not (contains d closed_issues)) (parse_dependencies re issue.body)

-- What is left once the issue is known to be open and without a PR.
unfoldable pub classify_unlinked : ℕ → List ℕ → List ℕ → Classification
classify_unlinked issue blocking triggered =
    if not (is_empty blocking)
    then plain issue Bucket.blocked blocking
    else if contains issue triggered
    then plain issue Bucket.triggered_waiting blocking
    else plain issue Bucket.ready blocking

unfoldable pub classify : Regexes → Issue → List ℕ → List Pr → List ℕ → Classification
unfolding classify_unlinked
classify re issue closed_issues prs triggered =
    if is_closed issue.state
    then plain issue.number Bucket.already_closed []
    else if is_human issue
    then plain issue.number Bucket.human []
    else elim (find (is_pr_of issue.number) prs) [
      | some pr ↦ record {
        issue = issue.number;
        bucket = pr_bucket pr.ci;
        blocking = blocking_of re issue closed_issues;
        pr = some pr.number;
      }
      | none ↦ classify_unlinked issue.number (blocking_of re issue closed_issues) triggered
    ]
