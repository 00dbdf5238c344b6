-- ===== src/Orchestrate/Dispatch.antt =====
-- crates/conductr-orchestrate/src/dispatch.rs: the runner of an issue and the slots of the tmux pool.
pub mod Slots
pub mod Stale
use conductr.Prelude.{
  ℕ, zero, suc, ◌+◌, ◌-◌, Text, List, [], ◌∷◌, ◌++◌, Option, none, some, Bool, true, false, not,
  if◌then◌else◌, filter, filter_map, contains, codes, trim, to_ascii_lowercase, text_eq, text_le,
  strip_prefix, sort, leb, take, map, length,
}
use conductr.Prelude.Decimal.{show_nat, parse_u64}
use conductr.Prelude.Sort.{sort_by}
use conductr.Core.Types.{Issue}
use conductr.Core.Sessions.{TmuxSession}

pub data Runner : Type 0 where
  web tmux : Runner

pub data SlotKind : Type 0 where
  agent qa : SlotKind

unfoldable pub prefix : SlotKind → Text
prefix agent = codes "agent"
prefix qa = codes "qa"

unfoldable pub slot_name : SlotKind → ℕ → Text
slot_name kind n = prefix kind ++ show_nat n

-- The loop over the labels.
unfoldable pub runner_of_labels : List Text → Runner
runner_of_labels [] = web
runner_of_labels (label ∷ rest) =
    let l = to_ascii_lowercase (trim label) in
    if text_eq l (codes "runner:tmux")
    then tmux
    else if text_eq l (codes "runner:web")
    then web
    else runner_of_labels rest

unfoldable pub runner_for : Issue → Runner
runner_for issue = runner_of_labels issue.labels

-- `s.name.strip_prefix(prefix)?.parse::<usize>().ok()`, with 64-bit words.
unfoldable pub slot_index : SlotKind → TmuxSession → Option ℕ
slot_index kind s = elim (strip_prefix (prefix kind) s.name) [
  | none ↦ none
  | some rest ↦ parse_u64 rest
]

unfoldable pub active_slot_indices : List TmuxSession → SlotKind → List ℕ
active_slot_indices sessions kind = sort (filter_map (slot_index kind) sessions)

-- `(start..start + count).find(|n| !active.contains(n))`.
unfoldable pub first_free : List ℕ → ℕ → ℕ → Option ℕ
first_free active start zero = none
first_free active start (suc count) =
    if not (contains start active) then some start else first_free active (start + 1) count

unfoldable pub next_free_slot : List TmuxSession → SlotKind → ℕ → Option ℕ
next_free_slot sessions kind max = first_free (active_slot_indices sessions kind) 1 max

unfoldable pub is_slot : SlotKind → TmuxSession → Bool
is_slot kind s = elim (slot_index kind s) [ none ↦ false | some n ↦ true ]

-- `sort_by(|a, b| b.name.cmp(&a.name))`.
abbrev pub by_name_descending : TmuxSession → TmuxSession → Bool
by_name_descending a b = text_le b.name a.name

unfoldable pub stale_names : SlotKind → List TmuxSession → ℕ → List Text
stale_names kind sessions needed =
    let slots = sort_by by_name_descending (filter (is_slot kind) sessions) in
    if leb (length slots) needed
    then []
    else map (λ (s : TmuxSession). s.name) (take (length slots - needed) slots)

unfoldable pub stale_agent_pane_names : List TmuxSession → ℕ → List Text
stale_agent_pane_names sessions in_flight_count = stale_names agent sessions in_flight_count

unfoldable pub stale_qa_pane_names : List TmuxSession → ℕ → List Text
stale_qa_pane_names sessions open_pr_count = stale_names qa sessions open_pr_count
