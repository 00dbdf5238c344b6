-- ===== src/Orchestrate/Cycle/Survey.antt =====
-- The first part of `run_cycle`: labels that are no longer due are cleared, local CI is run, and the
-- issues that were triggered are found.
use conductr.Prelude.{
  ℕ, Text, List, [], ◌∷◌, ◌++◌, Option, none, some, Bool, not, ◌&&◌, if◌then◌else◌, any,
  text_contains,
}
use conductr.Prelude.Map.{set_insert}
use conductr.Core.Types.{Issue, Pr, CiStatus, CiMode, PrLocalCiResult, OrchestratorConfig}
use conductr.Orchestrate.Classifier.{is_open_pr}
use conductr.Orchestrate.Cycle.{
  World, Setup, Cycle, ClosedPr, remove_issue_label, made, in_flight, in_flight_label,
}

-- One turn of either clearing loop, for the issue that a PR links to.
unfoldable pub clear_label : World → List Issue → Cycle → Option ℕ → Cycle
clear_label w issues s none = s
clear_label w issues s (some issue_num) =
    if in_flight issues issue_num
    then made w s (remove_issue_label issue_num in_flight_label)
    else s

unfoldable pub clear_opened : World → List Issue → Cycle → List Pr → Cycle
clear_opened w issues s [] = s
clear_opened w issues s (pr ∷ rest) =
    clear_opened w issues (clear_label w issues s pr.linked_issue) rest

unfoldable pub clear_closed : World → List Issue → Cycle → List ClosedPr → Cycle
clear_closed w issues s [] = s
clear_closed w issues s (pr ∷ rest) =
    clear_closed w issues (clear_label w issues s pr.linked_issue) rest

unfoldable pub clear_labels :
    World → OrchestratorConfig → List Issue → List Pr → List ClosedPr → Cycle → Cycle
clear_labels w config issues prs closed_prs s =
    if not config.dry_run then clear_closed w issues (clear_opened w issues s prs) closed_prs else s

unfoldable pub resolve_ci_mode : CiMode → CiStatus → CiStatus → CiStatus
resolve_ci_mode CiMode.local CiStatus.unknown github = CiStatus.failing
resolve_ci_mode CiMode.local other github = other
resolve_ci_mode CiMode.prefer_local CiStatus.unknown github = github
resolve_ci_mode CiMode.prefer_local other github = other
resolve_ci_mode CiMode.prefer_github local CiStatus.passing = CiStatus.passing
resolve_ci_mode CiMode.prefer_github local CiStatus.failing = CiStatus.failing
resolve_ci_mode CiMode.prefer_github local other = local
resolve_ci_mode CiMode.github local github = github

-- Whether the code of a PR is run: an open PR, and no fork unless forks are allowed.
unfoldable pub runs_local_ci : OrchestratorConfig → Pr → Bool
runs_local_ci config pr = is_open_pr pr.state && not (pr.is_fork && not config.allow_fork_local_ci)

-- The PR with its resolved status, and the result to report.
unfoldable pub local_ci_one :
    World → OrchestratorConfig → List Text → Pr → Pr × List PrLocalCiResult
local_ci_one w config earlier pr =
    if runs_local_ci config pr
    then elim (w.local_ci_run earlier pr.head_ref) [
      | none ↦ (pr, [])
      | some report ↦ (
        record pr { ci = resolve_ci_mode config.ci_mode report.status pr.ci },
        record { pr = pr.number; status = report.status } ∷ [],
      )
    ]
    else (pr, [])

abbrev run_before : OrchestratorConfig → List Text → Pr → List Text
run_before config earlier pr = if runs_local_ci config pr then pr.head_ref ∷ earlier else earlier

unfoldable pub local_ci_loop :
    World → OrchestratorConfig → List Text → List Pr → List Pr × List PrLocalCiResult
local_ci_loop w config earlier [] = ([], [])
local_ci_loop w config earlier (pr ∷ rest) =
    let (pr', result) = local_ci_one w config earlier pr in
    let (rest', results) = local_ci_loop w config (run_before config earlier pr) rest in
    (pr' ∷ rest', result ++ results)

unfoldable pub resolve_prs : World → Setup → List Pr → List Pr × List PrLocalCiResult
resolve_prs w setup prs =
    if setup.has_local_ci then local_ci_loop w setup.config [] prs else (prs, [])

abbrev or_empty : Option (List Text) → List Text
or_empty none = []
or_empty (some l) = l

-- The issues with a comment that holds the trigger.
unfoldable pub triggered_issues : World → OrchestratorConfig → List ℕ → List Issue → List ℕ
triggered_issues w config out [] = out
triggered_issues w config out (issue ∷ rest) =
    triggered_issues w config
      (if any (text_contains config.trigger_comment) (or_empty (w.list_issue_comments issue.number))
        then set_insert issue.number out
        else out)
      rest
