-- ===== src/Orchestrate/Cycle/Launch.antt =====
-- The last loop of `run_cycle`: what is done with one classified issue.
use conductr.Prelude.{
  ℕ, ◌+◌, Text, List, [], ◌∷◌, ◌++◌, none, some, Bool, true, false, not, ◌||◌, if◌then◌else◌, any,
  codes, leb, filter, ◌==◌,
}
use conductr.Prelude.Decimal.{show_nat}
use conductr.Prelude.Map.{get, insert}
use conductr.Core.Types.{Issue, SafetyPreset, bureaucratic, OrchestratorConfig}
use conductr.Core.Signals.{MailKind}
use conductr.Orchestrate.Dispatch.{Runner, web, tmux, agent, slot_name, first_free}
use conductr.Orchestrate.Cycle.{
  World, Setup, Cycle, add_issue_label, remove_issue_label, comment_issue, new_session, send_line,
  send_mail, answer, made, in_flight_label, is_in_flight,
}
use conductr.Orchestrate.Cycle.Merge.{or_dot, claude_command}

-- The report of a deferral.
unfoldable pub deferred : Cycle → ℕ → Cycle
deferred s issue = record s {
  report = record s.report { soft_chord_deferred = s.report.soft_chord_deferred ++ issue ∷ [] };
}

-- `soft_chord_blocked_since.entry(issue).or_insert_with(Instant::now)`.
unfoldable pub remember : World → Cycle → ℕ → Cycle
remember w s issue = elim (get issue s.soft_chord_blocked_since) [
  | some since ↦ s
  | none ↦ record s {
    soft_chord_blocked_since = insert issue (w.now s.trace) s.soft_chord_blocked_since;
  }
]

-- `soft_chord_blocked_since.remove(&issue)`.
unfoldable pub forget : Cycle → ℕ → Cycle
forget s issue = record s {
  soft_chord_blocked_since = filter (λ (n, since). not (n == issue)) s.soft_chord_blocked_since;
}

-- A dispatch succeeded.
unfoldable pub count_dispatch : Cycle → ℕ → SafetyPreset → Cycle
count_dispatch s issue preset = record s {
  report = record s.report { triggered = s.report.triggered ++ issue ∷ []; progress_made = true };
  dispatched_this_pass = s.dispatched_this_pass + 1;
  bureaucratic_dispatched = (elim preset [ bureaucratic ↦ true | _ ↦ s.bureaucratic_dispatched ]);
}

-- Label first, then the comment; if that fails the label is taken off again.
unfoldable pub trigger_web : World → OrchestratorConfig → Cycle → ℕ → SafetyPreset → Cycle
trigger_web w config s issue preset =
    let labelled = made w s (add_issue_label issue in_flight_label) in
    let commented = made w labelled (comment_issue issue config.trigger_comment) in
    if answer w s (add_issue_label issue in_flight_label)
    then if answer w labelled (comment_issue issue config.trigger_comment)
      then count_dispatch commented issue preset
      else made w commented (remove_issue_label issue in_flight_label)
    else labelled

unfoldable pub agent_prompt : OrchestratorConfig → ℕ → Text
agent_prompt config issue = config.trigger_comment ++ codes " --issue " ++ show_nat issue

-- The prompt into the session; if it fails the label is taken off again.
unfoldable pub prompt_agent : World → OrchestratorConfig → Cycle → ℕ → ℕ → SafetyPreset → Cycle
prompt_agent w config s issue slot preset =
    let line = send_line (slot_name agent slot) (agent_prompt config issue) in
    let sent = made w s line in
    if answer w s line
    then count_dispatch
        (record sent { agent_indices_in_use = sent.agent_indices_in_use ++ slot ∷ [] }) issue preset
    else made w sent (remove_issue_label issue in_flight_label)

unfoldable pub spawn_agent : World → OrchestratorConfig → Cycle → ℕ → ℕ → SafetyPreset → Cycle
spawn_agent w config s issue slot preset =
    let name = slot_name agent slot in
    let labelled = made w s (add_issue_label issue in_flight_label) in
    let session = new_session name (or_dot config.tmux_cwd) in
    let created = made w labelled session in
    if answer w s (add_issue_label issue in_flight_label)
    then if answer w labelled session
      then prompt_agent w config (made w created (send_line name claude_command)) issue slot preset
      else made w created (remove_issue_label issue in_flight_label)
    else labelled

-- At most `max_parallel_beats` dispatches before this one.
unfoldable pub trigger_web_capped : World → OrchestratorConfig → Cycle → ℕ → SafetyPreset → Cycle
trigger_web_capped w config s issue preset =
    if leb config.max_parallel_beats s.dispatched_this_pass
    then s
    else trigger_web w config s issue preset

unfoldable pub launch_tmux : World → Setup → Cycle → ℕ → SafetyPreset → ℕ → Cycle
launch_tmux w setup s issue preset slot =
    if setup.config.dry_run
    then s
    else if setup.has_tmux
    then spawn_agent w setup.config s issue slot preset
    else trigger_web_capped w setup.config s issue preset

-- (f) The runner of the issue and its cap.
unfoldable pub launch : World → Setup → Cycle → ℕ → SafetyPreset → Runner → Cycle
launch w setup s issue preset web =
    if leb setup.config.max_parallel_beats s.dispatched_this_pass
    then s
    else if setup.config.dry_run
    then s
    else trigger_web w setup.config s issue preset
launch w setup s issue preset tmux =
    elim (first_free s.agent_indices_in_use 1 setup.config.max_parallel_beats) [
      | none ↦ s
      | some slot ↦ launch_tmux w setup s issue preset slot
    ]

-- (e) The hard chord: one BUREAUCRATIC dispatch at a time.
unfoldable pub chord_blocks : World → List Issue → Cycle → SafetyPreset → Bool
chord_blocks w issues s bureaucratic =
    any is_in_flight issues || s.bureaucratic_dispatched || not (w.coordinator_free s.trace)
chord_blocks w issues s preset = false

unfoldable pub launch_chorded :
    World → Setup → List Issue → Cycle → ℕ → SafetyPreset → Runner → Cycle
launch_chorded w setup issues s issue preset runner =
    if chord_blocks w issues s preset
    then deferred s issue
    else launch w setup s issue preset runner

unfoldable pub send_yells : World → Cycle → List MailKind → Cycle
send_yells w s [] = s
send_yells w s (y ∷ ys) = send_yells w (made w s (send_mail y)) ys
