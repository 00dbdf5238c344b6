-- ===== src/Orchestrate/Examples.antt =====
-- Runs of the pure functions of conductr-orchestrate at concrete inputs.
use conductr.Prelude.{Text, Option, none, some, true, ◌≡◌, refl, List, [], ◌∷◌, ℕ, codes}
use conductr.Prelude.Decimal.{show_nat, parse_u64}
use conductr.Orchestrate.Architect.{m_}
use conductr.Orchestrate.Tempo.{
  TempoPrRow, CiRunRow, append_rows, pr_texts, ci_texts, row_texts, row_text, pr_fields, ci_fields,
  toml_str, parse_existing_numbers, scan,
}
use conductr.Orchestrate.Tempo.Flush.{append_rows-append_rows}
use conductr.Prelude.{
  ℕ, Text, List, [], ◌∷◌, ◌++◌, none, some, Bool, true, false, ◌≡◌, ◌≢◌, ◌↔◌, ◌≤◌, refl, arith,
  codes, contains, any, flat_map, IsAscending,
}
use conductr.Prelude.Map.{keys}
use conductr.Prelude.Sort.{sort_by}
use conductr.Prelude.Decimal.{show_nat, parse_u64}
use conductr.Prelude.Result.{Result, ok}
use conductr.Core.Types.{Issue, IssueState, Pr, PrState, CiStatus, Bucket, fast, strict}
use conductr.Core.DepGraph.{DepGraph, GraphError}
use conductr.Core.Sessions.{TmuxSession}
use conductr.Orchestrate.Graph.{topo_batches}
use conductr.Orchestrate.Graph.Sorted.{IsSorted, topo_batches-IsSorted, topo_batches-ok}
use conductr.Orchestrate.Deps.{Regexes, parses_to, parse_dependencies, contains-parse_dependencies}
use conductr.Orchestrate.Classifier.{blocking_of, classify}
use conductr.Orchestrate.Classifier.Buckets.{
  IsUnlinked, classify-ready, classify-blocked, IsForAgent, IsFirst, classify-pr,
}
use conductr.Orchestrate.CiGate.{
  Check, CheckStatus, Branch, allowed, blocked_by, retry_once, failure, can_merge, strict_predicate,
  strict_loop,
}
use conductr.Orchestrate.CiGate.Gate.{can_merge_mono, strict-retry, strict-blocked}
use conductr.Orchestrate.Dispatch.{
  agent, slot_name, active_slot_indices, next_free_slot, is_slot, stale_names, slot_index, prefix,
}
use conductr.Orchestrate.Dispatch.Slots.{next_free_slot-least, slot_name-active}

-- 3 waits for 1 and 2, 4 for 3 and for 9, which is not in the graph.
abbrev diamond : DepGraph
diamond = record { edges = (1, []) ∷ (2, []) ∷ (3, 1 ∷ 2 ∷ []) ∷ (4, 3 ∷ 9 ∷ []) ∷ [] }

diamond-IsAscending : IsAscending (keys diamond.edges)
diamond-IsAscending = ground arith

topo_batches-IsSorted_example :
    (r : Result (List (List ℕ)) GraphError) × (topo_batches diamond [] ≡ some r)
    × IsSorted diamond [] r
topo_batches-IsSorted_example = topo_batches-IsSorted diamond [] diamond-IsAscending

topo_batches-ok_example : (batches : List (List ℕ)) × (topo_batches diamond [] ≡ some (ok batches))
topo_batches-ok_example = topo_batches-ok diamond [] (λ n. n) refl diamond-IsAscending

-- The phrases and references of a body, for texts that are one reference or a list of them.
abbrev samples : Regexes
samples = record {
  phrase = λ body. codes "#12, #7" ∷ [];
  checklist = λ body. codes "9" ∷ codes "7" ∷ [];
  issue_num = λ tail. codes "12" ∷ codes "7" ∷ [];
}

contains-parse_dependencies_example :
    ((n : ℕ)
      → contains n (parse_dependencies samples [])
        ≡ any
            (parses_to n)
            (samples.checklist [] ++ flat_map samples.issue_num (samples.phrase [])))
    × IsAscending (parse_dependencies samples [])
contains-parse_dependencies_example = contains-parse_dependencies samples []

abbrev no_references : Regexes
no_references = record { phrase = λ b. []; checklist = λ b. []; issue_num = λ b. [] }

abbrev issue : ℕ → List Text → Issue
issue n labels = record {
  number = n;
  title = [];
  body = [];
  labels = labels;
  state = IssueState.open_;
}

abbrev pr_for : ℕ → ℕ → CiStatus → Pr
pr_for n linked ci = record {
  number = n;
  title = [];
  body = [];
  head_ref = codes "feature";
  state = PrState.open_;
  ci = ci;
  linked_issue = some linked;
  is_fork = false;
}

classify-ready_example :
    ((classify no_references (issue 1 []) [] (pr_for 8 2 CiStatus.passing ∷ []) []).bucket
      ≡ Bucket.ready)
    ↔ (IsUnlinked (issue 1 []) (pr_for 8 2 CiStatus.passing ∷ [])
        × (blocking_of no_references (issue 1 []) [] ≡ [])
        × (contains 1 [] ≡ false))
classify-ready_example =
    classify-ready no_references (issue 1 []) [] (pr_for 8 2 CiStatus.passing ∷ []) []

classify-blocked_example :
    (((classify samples (issue 1 []) (7 ∷ []) [] []).bucket ≡ Bucket.blocked)
      ↔ (IsUnlinked (issue 1 []) [] × (blocking_of samples (issue 1 []) (7 ∷ []) ≢ [])))
    × (((classify samples (issue 1 []) (7 ∷ []) [] []).bucket ≡ Bucket.triggered_waiting) ↔ (
        IsUnlinked (issue 1 []) []
        × (blocking_of samples (issue 1 []) (7 ∷ []) ≡ [])
        × (contains 1 [] ≡ true)))
classify-blocked_example = classify-blocked samples (issue 1 []) (7 ∷ []) [] []

abbrev two_prs : List Pr
two_prs = pr_for 8 2 CiStatus.passing ∷ pr_for 9 1 CiStatus.failing ∷ []

classify-pr_example :
    (((classify no_references (issue 1 []) [] two_prs []).bucket ≡ Bucket.pr_failing)
      ↔ (IsForAgent (issue 1 []) × (p : Pr) × IsFirst 1 two_prs p × (p.ci ≡ CiStatus.failing)))
    × (((classify no_references (issue 1 []) [] two_prs []).bucket ≡ Bucket.pr_open)
        ↔ (IsForAgent (issue 1 []) × (p : Pr) × IsFirst 1 two_prs p × (p.ci ≢ CiStatus.failing)))
    × (((classify no_references (issue 1 []) [] two_prs []).pr ≡ some 9)
        ↔ (IsForAgent (issue 1 []) × (p : Pr) × IsFirst 1 two_prs p × (p.number ≡ 9)))
classify-pr_example = classify-pr no_references (issue 1 []) [] two_prs [] 9

abbrev check : Text → CheckStatus → Bool → Check
check name status required = record { name = name; status = status; required = required }

abbrev branch : List Check → Branch
branch checks = record {
  head_ref = codes "feature";
  checks = checks;
  review_approved = false;
  linked_issue_closed = false;
  adr_present = false;
}

abbrev unit_green : Check
unit_green = check (codes "unit") CheckStatus.green true

abbrev lint_green : Check
lint_green = check (codes "lint") CheckStatus.green false

abbrev build_transient : Check
build_transient = check (codes "build") CheckStatus.transient true

abbrev docs_red : Check
docs_red = check (codes "docs") CheckStatus.red false

can_merge_mono_example : can_merge (branch (unit_green ∷ lint_green ∷ [])) fast ≡ allowed
unfolding can_merge strict_predicate strict_loop
can_merge_mono_example =
    can_merge_mono (branch (unit_green ∷ lint_green ∷ [])) fast strict (ground arith) refl

strict-retry_example :
    can_merge (branch (unit_green ∷ build_transient ∷ lint_green ∷ [])) strict
    ≡ retry_once (record { check_name = codes "build" })
strict-retry_example =
    strict-retry (branch (unit_green ∷ build_transient ∷ lint_green ∷ [])) (unit_green ∷ [])
      build_transient (lint_green ∷ []) refl refl refl refl

strict-blocked_example :
    can_merge (branch (build_transient ∷ docs_red ∷ [])) strict ≡ blocked_by (failure docs_red)
strict-blocked_example =
    strict-blocked (branch (build_transient ∷ docs_red ∷ [])) (build_transient ∷ []) docs_red []
      refl refl refl

abbrev amber_sibling : List Pr
amber_sibling = pr_for 8 2 CiStatus.pending ∷ []

abbrev session : Text → TmuxSession
session name = record {
  name = name;
  created = 0;
  last_activity = 0;
  windows = 1;
  attached = false;
  cwd = none;
}

abbrev pool : List TmuxSession
pool =
    session (codes "agent1")
    ∷ session (codes "agent10")
    ∷ session (codes "qa2")
    ∷ session (codes "agent9")
    ∷ []

next_free_slot-least_example :
    (slot : ℕ) × (next_free_slot pool agent 4 ≡ some slot)
    × (slot ≤ 3)
    × (1 ≤ slot)
    × (slot ≤ 4)
    × (contains slot (active_slot_indices pool agent) ≡ false)
unfolding active_slot_indices slot_index prefix parse_u64
next_free_slot-least_example = next_free_slot-least pool agent 4 3 (omega arith) (omega arith) refl

slot_name-active_example :
    (contains 9 (active_slot_indices pool agent) ≡ true) × (next_free_slot pool agent 12 ≢ some 9)
unfolding slot_name prefix show_nat
slot_name-active_example =
    slot_name-active agent 9
      (session (codes "agent1") ∷ session (codes "agent10") ∷ session (codes "qa2") ∷ [])
      (session (codes "agent9")) [] 12 (omega arith) refl

-- `agent9` is released, though `agent10` has the greater index.
stale_names_test : stale_names agent pool 2 ≡ codes "agent9" ∷ []
unfolding stale_names sort_by is_slot slot_index prefix parse_u64
stale_names_test = refl

abbrev row : ℕ → TempoPrRow
row n = record {
  number = n;
  title = codes "Add \"x\"";
  phrase = some (codes "add-x");
  chord = none;
  complexity = m_;
  opened = codes "2025-01-01T00:00:00Z";
  closed = codes "2025-01-02T00:00:00Z";
  merged = true;
}

-- A file that has the row of PR 7.
abbrev conductr_file : Text
conductr_file = codes "project_tag = \"foo\"\n\n[[tempo.prs]]\nnumber     = 7\n"

abbrev ran : CiRunRow
ran = record { pr = 8; minutes = codes "3.5"; ts = codes "2025-01-02T00:00:00Z" }

abbrev text_of : Option Text → Text
text_of none = []
text_of (some t) = t

abbrev two_rows : List TempoPrRow
two_rows = row 7 ∷ row 8 ∷ []

append_rows-append_rows_example :
    append_rows (text_of (append_rows conductr_file two_rows (ran ∷ []))) two_rows (ran ∷ []) ≡ none
unfolding append_rows pr_texts ci_texts row_texts row_text pr_fields ci_fields toml_str
    parse_existing_numbers scan parse_u64 show_nat
append_rows-append_rows_example =
    append_rows-append_rows conductr_file (text_of (append_rows conductr_file two_rows (ran ∷ [])))
      two_rows (ran ∷ []) refl refl refl refl
