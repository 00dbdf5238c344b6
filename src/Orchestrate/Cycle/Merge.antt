-- ===== src/Orchestrate/Cycle/Merge.antt =====
-- The middle of `run_cycle`: PRs whose CI is not failing are merged, and QA slots are spawned.
use conductr.Prelude.{
  ℕ, Text, List, [], ◌∷◌, ◌++◌, Option, none, some, Bool, true, false, ◌&&◌, if◌then◌else◌, codes,
}
use conductr.Prelude.Decimal.{show_nat}
use conductr.Core.Types.{Issue, Pr, Bucket, Classification, OrchestratorConfig}
use conductr.Orchestrate.Classifier.{is_open_pr}
use conductr.Orchestrate.Dispatch.{Runner, web, tmux, qa, slot_name, runner_for, first_free}
use conductr.Orchestrate.Cycle.{
  World, Setup, Cycle, merge_pr_squash, new_session, send_line, answer, made, issue_named,
}

-- The attempt to merge one PR.
unfoldable pub merge_pr : World → OrchestratorConfig → Cycle → ℕ → Cycle
merge_pr w config s pr =
    if config.dry_run
    then s
    else let after = made w s (merge_pr_squash pr) in
      if answer w s (merge_pr_squash pr)
      then record after {
        report = record after.report {
          merged = after.report.merged ++ pr ∷ [];
          progress_made = true;
        };
      }
      else after

unfoldable pub merge_one : World → OrchestratorConfig → Cycle → Bucket → Option ℕ → Cycle
merge_one w config s Bucket.pr_open (some pr) = merge_pr w config s pr
merge_one w config s Bucket.pr_failing (some pr) = record s {
  report = record s.report { pr_failing = s.report.pr_failing ++ pr ∷ [] };
}
merge_one w config s bucket pr = s

unfoldable pub merge_passing : World → OrchestratorConfig → Cycle → List Classification → Cycle
merge_passing w config s [] = s
merge_passing w config s (c ∷ rest) =
    merge_passing w config (merge_one w config s c.bucket c.pr) rest

abbrev pub or_dot : Option Text → Text
or_dot none = codes "."
or_dot (some cwd) = cwd

abbrev pub claude_command : Text
claude_command = codes "claude --dangerously-skip-permissions"

-- The session is made, and told the command and the prompt. The slot is in use if the prompt was
-- sent; a failure of the command line is not looked at.
unfoldable pub spawn_qa : World → OrchestratorConfig → Cycle → ℕ → ℕ → Cycle
spawn_qa w config s pr slot =
    let name = slot_name qa slot in
    let prompt = codes "/qa --pr " ++ show_nat pr in
    let created = made w s (new_session name (or_dot config.tmux_cwd)) in
    if answer w s (new_session name (or_dot config.tmux_cwd))
    then (let started = made w created (send_line name claude_command) in
        let sent = made w started (send_line name prompt) in
        if answer w started (send_line name prompt)
        then record sent { qa_indices_in_use = sent.qa_indices_in_use ++ slot ∷ [] }
        else sent)
    else created

abbrev is_tmux : Runner → Bool
is_tmux tmux = true
is_tmux web = false

abbrev runs_in_tmux : Option Issue → Bool
runs_in_tmux none = false
runs_in_tmux (some issue) = is_tmux (runner_for issue)

abbrev linked_in_tmux : List Issue → Option ℕ → Bool
linked_in_tmux issues none = false
linked_in_tmux issues (some n) = runs_in_tmux (issue_named issues n)

-- An open PR of an open issue whose runner is tmux.
unfoldable pub wants_qa : List Issue → Pr → Bool
wants_qa issues pr = is_open_pr pr.state && linked_in_tmux issues pr.linked_issue

-- The loop over the PRs; a full pool ends it.
unfoldable pub qa_loop : World → OrchestratorConfig → List Issue → Cycle → List Pr → Cycle
qa_loop w config issues s [] = s
qa_loop w config issues s (pr ∷ rest) =
    let skip = qa_loop w config issues s rest in
    if wants_qa issues pr
    then elim (first_free s.qa_indices_in_use 1 config.max_parallel_qa) [
      | none ↦ s
      | some slot ↦
          let after = if config.dry_run then s else spawn_qa w config s pr.number slot in
          qa_loop w config issues after rest
    ]
    else skip

unfoldable pub spawn_qa_slots : World → Setup → List Issue → Cycle → List Pr → Cycle
spawn_qa_slots w setup issues s prs =
    if setup.has_tmux then qa_loop w setup.config issues s prs else s
