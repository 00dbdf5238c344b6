-- ===== src/Orchestrate/Cycle/Pass.antt =====
-- `run_cycle`, put together.
use conductr.Prelude.{
  ℕ, Text, List, [], ◌∷◌, ◌++◌, Option, none, some, Bool, false, ◌&&◌, if◌then◌else◌, ◌==◌, map,
  is_empty,
}
use conductr.Prelude.Map.{get}
use conductr.Core.Types.{
  Issue, Pr, SafetyPreset, Bucket, Classification, CycleReport, OrchestratorConfig, PrLocalCiResult,
}
use conductr.Core.Safety.{l0_bootstrap, resolve_preset, preset_from_labels}
use conductr.Core.Signals.{scope_claim, MailMessage}
use conductr.Core.Sessions.{TmuxSession}
use conductr.Orchestrate.Classifier.{classify}
use conductr.Orchestrate.Dispatch.{Runner, web, agent, qa, runner_for, active_slot_indices}
use conductr.Orchestrate.Isolation.{
  IsolationDecision, dispatch, defer, dispatch_with_yell, dispatch_with_advisory, decide,
  sibling_prs,
}
use conductr.Orchestrate.Cycle.{
  World, Setup, Cycle, comment_issue, assign_issue, made, issue_named, in_flight,
}
use conductr.Orchestrate.Cycle.Survey.{clear_labels, resolve_prs, triggered_issues}
use conductr.Orchestrate.Cycle.Merge.{merge_passing, spawn_qa_slots}
use conductr.Orchestrate.Cycle.Launch.{deferred, remember, forget, launch_chorded, send_yells}

-- The first message that claims this issue's scope.
unfoldable pub claim_of : ℕ → List MailMessage → Option Text
claim_of issue [] = none
claim_of issue (msg ∷ rest) = elim msg.payload [
  | scope_claim claimed files summary ↦
      if claimed == issue then some msg.id else claim_of issue rest
  | _ ↦ claim_of issue rest
]

abbrev claim_in : ℕ → Option (List MailMessage) → Option Text
claim_in issue none = none
claim_in issue (some messages) = claim_of issue messages

unfoldable pub check_scope_overlap : World → Cycle → ℕ → Option Text
check_scope_overlap w s issue = claim_in issue (w.inbox s.trace)

-- The preset that a ready issue is dispatched under.
abbrev labels_preset : Option Issue → Option SafetyPreset
labels_preset none = none
labels_preset (some issue) = preset_from_labels issue.labels

unfoldable pub effective_preset : OrchestratorConfig → Option Issue → SafetyPreset
effective_preset config issue =
    resolve_preset l0_bootstrap config.safety_preset (labels_preset issue)

abbrev pub runner_or_web : Option Issue → Runner
runner_or_web none = web
runner_or_web (some issue) = runner_for issue

-- (c) What the isolation decision asks for, and then the dispatch.
unfoldable pub act_on :
    World → Setup → List Issue → Cycle → ℕ → SafetyPreset → Runner → IsolationDecision → Cycle
act_on w setup issues s issue preset runner defer = deferred (remember w s issue) issue
act_on w setup issues s issue preset runner (dispatch_with_yell yells) =
    launch_chorded w setup issues
      (forget (if setup.has_mailbox then send_yells w s yells else s) issue) issue preset runner
act_on w setup issues s issue preset runner (dispatch_with_advisory advisory) =
    launch_chorded w setup issues
      (forget (if setup.config.dry_run then s else made w s (comment_issue issue advisory)) issue)
      issue preset runner
act_on w setup issues s issue preset runner dispatch =
    launch_chorded w setup issues (forget s issue) issue preset runner

unfoldable pub consider : World → Setup → List Issue → List Pr → Cycle → ℕ → Cycle
consider w setup issues prs s issue =
    let named = issue_named issues issue in
    let preset = effective_preset setup.config named in
    act_on w setup issues s issue preset (runner_or_web named) (
      decide (w.now s.trace) preset issue (sibling_prs issue prs)
        (get issue s.soft_chord_blocked_since) setup.config.soft_chord_timeout)

-- A ready issue: (a) the label, then the scope, then the dispatch.
unfoldable pub dispatch_ready : World → Setup → List Issue → List Pr → Cycle → ℕ → Cycle
dispatch_ready w setup issues prs s issue =
    if in_flight issues issue
    then s
    else elim (if setup.has_mailbox then check_scope_overlap w s issue else none) [
      | some msg_id ↦ record s {
        report = record s.report { scope_overlap = s.report.scope_overlap ++ issue ∷ [] };
      }
      | none ↦ consider w setup issues prs s issue
    ]

unfoldable pub assign_human : World → OrchestratorConfig → Cycle → ℕ → Cycle
assign_human w config s issue = elim config.default_human_assignee [
  | none ↦ s
  | some login ↦ if config.dry_run then s else made w s (assign_issue issue login)
]

unfoldable pub dispatch_one : World → Setup → List Issue → List Pr → Cycle → ℕ → Bucket → Cycle
dispatch_one w setup issues prs s issue Bucket.ready = dispatch_ready w setup issues prs s issue
dispatch_one w setup issues prs s issue Bucket.triggered_waiting = record s {
  report = record s.report { waiting = s.report.waiting ++ issue ∷ [] };
}
dispatch_one w setup issues prs s issue Bucket.blocked = record s {
  report = record s.report { blocked = s.report.blocked ++ issue ∷ [] };
}
dispatch_one w setup issues prs s issue Bucket.human =
    assign_human w setup.config
      (record s { report = record s.report { human = s.report.human ++ issue ∷ [] } }) issue
dispatch_one w setup issues prs s issue bucket = s

unfoldable pub dispatch_all :
    World → Setup → List Issue → List Pr → Cycle → List Classification → Cycle
dispatch_all w setup issues prs s [] = s
dispatch_all w setup issues prs s (c ∷ rest) =
    dispatch_all w setup issues prs (dispatch_one w setup issues prs s c.issue c.bucket) rest

abbrev pub empty_report : List PrLocalCiResult → CycleReport
empty_report results = record {
  merged = [];
  triggered = [];
  waiting = [];
  blocked = [];
  human = [];
  pr_failing = [];
  scope_overlap = [];
  soft_chord_deferred = [];
  progress_made = false;
  local_ci = results;
}

abbrev pub fresh : List (ℕ × ℕ) → Cycle
fresh since = record {
  trace = [];
  report = empty_report [];
  agent_indices_in_use = [];
  qa_indices_in_use = [];
  dispatched_this_pass = 0;
  bureaucratic_dispatched = false;
  soft_chord_blocked_since = since;
}

abbrev or_nil {ℓ} : {A : Type ℓ} → Option (List A) → List A
or_nil none = []
or_nil (some l) = l

abbrev pub sessions_of : World → Setup → List TmuxSession
sessions_of w setup = if setup.has_tmux then or_nil w.list_sessions else []

-- The state behind the housekeeping, as the acting part finds it.
unfoldable pub surveyed : World → Setup → List (ℕ × ℕ) → List Issue → List Pr → Cycle
surveyed w setup since issues prs =
    let cleared = clear_labels w setup.config issues prs (or_nil w.list_closed_prs) (fresh since) in
    record cleared {
      report = empty_report (resolve_prs w setup prs).1;
      agent_indices_in_use = active_slot_indices (sessions_of w setup) agent;
      qa_indices_in_use = active_slot_indices (sessions_of w setup) qa;
    }

unfoldable pub classifications : World → Setup → List Issue → List ℕ → List Pr → List Classification
classifications w setup issues closed prs =
    map (λ i. classify w.regexes i closed prs (triggered_issues w setup.config [] issues)) issues

-- The state in which the last loop begins.
unfoldable pub prepared : World → Setup → List (ℕ × ℕ) → List Issue → List ℕ → List Pr → Cycle
prepared w setup since issues closed prs =
    let resolved = (resolve_prs w setup prs).0 in
    let cs = classifications w setup issues closed resolved in
    let merged = merge_passing w setup.config (surveyed w setup since issues prs) cs in
    spawn_qa_slots w setup issues merged resolved

-- Everything behind the three lists that have to be read.
unfoldable pub act : World → Setup → List (ℕ × ℕ) → List Issue → List ℕ → List Pr → Cycle
act w setup since issues closed prs =
    let resolved = (resolve_prs w setup prs).0 in
    dispatch_all w setup issues resolved (prepared w setup since issues closed prs)
      (classifications w setup issues closed resolved)

-- `none`: one of the three lists could not be read, and the error is passed on.
unfoldable pub run_cycle : World → Setup → List (ℕ × ℕ) → Option Cycle
run_cycle w setup since = elim w.list_open_issues [
  | none ↦ none
  | some issues ↦ elim w.list_closed_issue_numbers [
    | none ↦ none
    | some closed ↦ elim w.list_open_prs [
      | none ↦ none
      | some prs ↦ some (act w setup since issues closed prs)
    ]
  ]
]

-- `nothing_left` of `run_to_completion`.
unfoldable pub nothing_left : CycleReport → Bool
nothing_left r =
    is_empty r.triggered && is_empty r.merged && is_empty r.waiting && is_empty r.pr_failing
