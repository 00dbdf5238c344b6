-- ===== src/Core/Types.antt =====
-- crates/conductr-core/src/types.rs: the data that the orchestrator reads and reports.
-- Text is the list of its code points, and `u64`, `usize` and points in time are natural numbers.
use conductr.Prelude.{ℕ, Text, List, Option, Bool, codes, any, eq_ignore_ascii_case}

pub data SafetyPreset : Type 0 where
  unhinged feral fast strict bureaucratic : SafetyPreset

pub data SiblingStatus : Type 0 where
  green amber red : SiblingStatus

pub data IssueState : Type 0 where
  open_ closed : IssueState

pub record Issue : Type 0 where
  pub number : ℕ
  pub title : Text
  pub body : Text
  pub labels : List Text
  pub state : IssueState

unfoldable pub has_label : Issue → Text → Bool
has_label issue label = any (λ l. eq_ignore_ascii_case l label) issue.labels

unfoldable pub is_human : Issue → Bool
unfolding has_label
is_human issue = has_label issue (codes "human")

pub data PrState : Type 0 where
  open_ merged closed : PrState

pub data CiStatus : Type 0 where
  passing failing pending unknown : CiStatus

pub record Pr : Type 0 where
  pub number : ℕ
  pub title : Text
  pub body : Text
  pub head_ref : Text
  pub state : PrState
  pub ci : CiStatus
  pub linked_issue : Option ℕ
  pub is_fork : Bool

pub data Bucket : Type 0 where
  ready pr_open pr_failing blocked triggered_waiting human already_closed : Bucket
  scope_overlap : (existing_message_id : Text) → Bucket

pub record Classification : Type 0 where
  pub issue : ℕ
  pub bucket : Bucket
  pub blocking : List ℕ
  pub pr : Option ℕ

pub data CiMode : Type 0 where
  local prefer_local prefer_github github : CiMode

pub record LocalCiReport : Type 0 where
  pub status : CiStatus

pub record PrLocalCiResult : Type 0 where
  pub pr : ℕ
  pub status : CiStatus

-- The fields by which a pass is governed. The repository's name, the poll interval and the path of
-- the `.conductr` file only reach calls of the ports.
pub record OrchestratorConfig : Type 0 where
  pub trigger_comment : Text
  pub max_cycles : Option ℕ
  pub default_human_assignee : Option Text
  pub dry_run : Bool
  pub ci_mode : CiMode
  pub max_parallel_beats : ℕ
  pub max_parallel_qa : ℕ
  pub tmux_cwd : Option Text
  pub safety_preset : Option SafetyPreset
  pub soft_chord_timeout : ℕ
  pub allow_fork_local_ci : Bool

pub record CycleReport : Type 0 where
  pub merged : List ℕ
  pub triggered : List ℕ
  pub waiting : List ℕ
  pub blocked : List ℕ
  pub human : List ℕ
  pub pr_failing : List ℕ
  pub scope_overlap : List ℕ
  pub soft_chord_deferred : List ℕ
  pub progress_made : Bool
  pub local_ci : List PrLocalCiResult
