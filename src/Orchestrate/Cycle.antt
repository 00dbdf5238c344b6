-- ===== src/Orchestrate/Cycle.antt =====
-- crates/conductr-orchestrate/src/orchestrator.rs: one pass of survey, classify and act.
-- The ports of the crate (ScmHost, TmuxAgent, Mailbox, LocalCi, the clock) are a `World`: what a call
-- that changes something answers, and the inbox, the clock and the semaphore, may depend on all such
-- calls made before, a run of local CI on the runs before. The lists are read once in a pass, the
-- comments once for each issue. A pass is a function from the world to
-- its final state, which holds the calls that it made, the newest first, each with its answer.
pub mod Survey
pub mod Merge
pub mod Launch
pub mod Pass
pub mod Start
pub mod Quiet
pub mod Caps
pub mod Locks
pub mod Chords
pub mod Completion
mod Examples
use conductr.Prelude.{
  ℕ, Text, List, [], ◌∷◌, ◌++◌, Option, none, some, Bool, true, false, if◌then◌else◌, codes, find,
  ◌==◌,
}
use conductr.Core.Types.{
  Issue, Pr, PrState, CycleReport, OrchestratorConfig, LocalCiReport, has_label,
}
use conductr.Core.Sessions.{TmuxSession}
use conductr.Core.Signals.{MailKind, MailMessage}
use conductr.Orchestrate.Deps.{Regexes}

-- The calls of the ports that change something outside.
pub data Call : Type 0 where
  add_issue_label remove_issue_label comment_issue assign_issue : (issue : ℕ) (text : Text) → Call
  merge_pr_squash : (pr : ℕ) → Call
  new_session send_line : (name text : Text) → Call
  send_mail : MailKind → Call

abbrev pub Trace : Type 0
Trace = List (Call × Bool)

pub record ClosedPr : Type 0 where
  pub number : ℕ
  pub title : Text
  pub body : Text
  pub head_ref : Text
  pub state : PrState
  pub linked_issue : Option ℕ
  pub opened_at : ℕ
  pub closed_at : ℕ
  pub merged : Bool

pub record World : Type 0 where
  -- Whether a call returns `Ok`.
  pub answers : Trace → Call → Bool
  pub list_closed_prs : Option (List ClosedPr)
  pub list_open_issues : Option (List Issue)
  pub list_closed_issue_numbers : Option (List ℕ)
  pub list_open_prs : Option (List Pr)
  pub list_issue_comments : ℕ → Option (List Text)
  pub list_sessions : Option (List TmuxSession)
  -- `inbox(Some("scope_claim"), None)`.
  pub inbox : Trace → Option (List MailMessage)
  -- Of the refs that were run before, the newest first, and the ref.
  pub local_ci_run : List Text → Text → Option LocalCiReport
  pub now : Trace → ℕ
  pub coordinator_free : Trace → Bool
  pub regexes : Regexes

-- What the orchestrator was built with.
pub record Setup : Type 0 where
  pub config : OrchestratorConfig
  pub has_mailbox : Bool
  pub has_local_ci : Bool
  pub has_tmux : Bool

-- The state of a pass: the trace, the report and the local variables of `run_cycle`.
pub record Cycle : Type 0 where
  pub trace : Trace
  pub report : CycleReport
  pub agent_indices_in_use : List ℕ
  pub qa_indices_in_use : List ℕ
  pub dispatched_this_pass : ℕ
  pub bureaucratic_dispatched : Bool
  pub soft_chord_blocked_since : List (ℕ × ℕ)

abbrev pub in_flight_label : Text
in_flight_label = codes "conductr:in-flight"

-- A call, whether it succeeded, and the state after it.
abbrev pub answer : World → Cycle → Call → Bool
answer w s c = w.answers s.trace c

abbrev pub made : World → Cycle → Call → Cycle
made w s c = record s { trace = (c, answer w s c) ∷ s.trace }

unfoldable pub issue_named : List Issue → ℕ → Option Issue
issue_named issues n = find (λ (i : Issue). i.number == n) issues

unfoldable pub is_in_flight : Issue → Bool
is_in_flight issue = has_label issue in_flight_label

abbrev opt_in_flight : Option Issue → Bool
opt_in_flight none = false
opt_in_flight (some issue) = is_in_flight issue

-- The open issue with this number, if there is one, carries the label.
unfoldable pub in_flight : List Issue → ℕ → Bool
in_flight issues n = opt_in_flight (issue_named issues n)
