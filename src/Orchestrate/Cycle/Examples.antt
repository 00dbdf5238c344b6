-- ===== src/Orchestrate/Cycle/Examples.antt =====
-- Passes over a small repository.
use conductr.Prelude.{
  ℕ, ◌+◌, Text, List, [], ◌∷◌, none, some, Bool, true, false, ◌≤◌, refl, codes, length, not, ◌==◌,
}
use conductr.Core.Types.{Issue, IssueState, CiMode}
use conductr.Orchestrate.Cycle.{World, Setup, Call, Trace, comment_issue, remove_issue_label}
use conductr.Orchestrate.Cycle.Pass.{act}
use conductr.Orchestrate.Cycle.Quiet.{IsQuiet, act-IsQuiet}
use conductr.Orchestrate.Cycle.Caps.{length-triggered-le}
use conductr.Orchestrate.Cycle.Locks.{IsHeld, locked-triggered}
use conductr.Prelude.{any, if◌then◌else◌}
use conductr.Prelude.Result.{Result}
use conductr.Orchestrate.Cycle.{is_in_flight}
use conductr.Orchestrate.Cycle.Chords.{chorded, chorded-le}

abbrev issue : ℕ → List Text → Issue
issue n labels = record {
  number = n;
  title = [];
  body = [];
  labels = labels;
  state = IssueState.open_;
}

abbrev issues : List Issue
issues =
    issue 1 []
    ∷ issue 2 []
    ∷ issue 3 (codes "runner:tmux" ∷ [])
    ∷ issue 4 (codes "safety:bureaucratic" ∷ [])
    ∷ []

-- The comment on issue 2 fails, and so does every removal of a label.
abbrev succeeds : Trace → Call → Bool
succeeds trace (comment_issue n text) = not (n == 2)
succeeds trace (remove_issue_label n text) = false
succeeds trace _ = true

abbrev repository : World
repository = record {
  answers = succeeds;
  list_closed_prs = some [];
  list_open_issues = some issues;
  list_closed_issue_numbers = some [];
  list_open_prs = some [];
  list_issue_comments = λ n. some [];
  list_sessions = some [];
  inbox = λ trace. some [];
  local_ci_run = λ earlier head. none;
  now = λ trace. 0;
  coordinator_free = λ trace. true;
  regexes = record { phrase = λ b. []; checklist = λ b. []; issue_num = λ b. [] };
}

abbrev setup : Bool → Setup
setup dry_run = record {
  config = record {
    trigger_comment = codes "@claude";
    max_cycles = none;
    default_human_assignee = none;
    dry_run = dry_run;
    ci_mode = CiMode.github;
    max_parallel_beats = 2;
    max_parallel_qa = 1;
    tmux_cwd = none;
    safety_preset = none;
    soft_chord_timeout = 30;
    allow_fork_local_ci = false;
  };
  has_mailbox = true;
  has_local_ci = false;
  has_tmux = true;
}

locked-triggered_example : IsHeld 2 (act repository (setup false) [] issues [] [])
locked-triggered_example =
    locked-triggered repository (setup false) [] issues [] [] 2 (refl, (refl, (refl, (refl, tt))))

act-IsQuiet_example : IsQuiet (act repository (setup true) [] issues [] [])
act-IsQuiet_example = act-IsQuiet repository (setup true) refl [] issues [] []

length-triggered-le_example :
    length (act repository (setup false) [] issues [] []).report.triggered ≤ 2 + 2
length-triggered-le_example = length-triggered-le repository (setup false) [] issues [] []

-- Issue 4 is the only one under BUREAUCRATIC.
chorded-le_example :
    chorded repository (setup false) issues (act repository (setup false) [] issues [] [])
    ≤ (if any is_in_flight issues then 0 else 1)
chorded-le_example = chorded-le repository (setup false) issues [] [] []

abbrev twice : Setup
twice = record (setup false) { config = record (setup false).config { max_cycles = some 2 } }
