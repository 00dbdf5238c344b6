-- ===== src/Core/DepGraph.antt =====
-- crates/conductr-core/src/types.rs, `DepGraph`: which issue waits for which.
use conductr.Prelude.{ℕ, List, [], ◌∷◌, Option, none, some, if◌then◌else◌}
use conductr.Prelude.Map.{get, insert, contains_key, set_insert}
use conductr.Prelude.Result.{Result, ok, err, ◌>>◌}

-- `edges`: the issues in ascending order, each with its dependencies, ascending too.
pub record DepGraph : Type 0 where
  pub edges : List (ℕ × List ℕ)

pub data GraphError : Type 0 where
  cycle : List ℕ → GraphError
  dependency_outside_batch : (from to : ℕ) → GraphError

abbrev pub new : DepGraph
new = record { edges = [] }

-- `entry(k).or_default()`: the entry, made empty if it is missing.
entry_or_default : ℕ → List (ℕ × List ℕ) → List ℕ
entry_or_default k edges = elim (get k edges) [ none ↦ [] | some deps ↦ deps ]

unfoldable pub add_issue : DepGraph → ℕ → DepGraph
unfolding entry_or_default
add_issue g issue = record { edges = insert issue (entry_or_default issue g.edges) g.edges }

unfoldable pub add_dep : DepGraph → ℕ → ℕ → DepGraph
unfolding entry_or_default
add_dep g from to =
    let edges = insert from (set_insert to (entry_or_default from g.edges)) g.edges in
    record { edges = insert to (entry_or_default to edges) edges }

unfoldable pub deps_of : DepGraph → ℕ → Option (List ℕ)
deps_of g issue = get issue g.edges

-- The inner loop of `check_closed`, over the dependencies of one issue.
check_deps : List (ℕ × List ℕ) → ℕ → List ℕ → Result (Unit {0}) GraphError
check_deps edges from [] = ok tt
check_deps edges from (to ∷ deps) =
    if contains_key to edges
    then check_deps edges from deps
    else err (dependency_outside_batch from to)

check_from : List (ℕ × List ℕ) → List (ℕ × List ℕ) → Result (Unit {0}) GraphError
unfolding check_deps
check_from edges [] = ok tt
check_from edges ((from, deps) ∷ rest) = check_deps edges from deps >> check_from edges rest

unfoldable pub check_closed : DepGraph → Result (Unit {0}) GraphError
unfolding check_from
check_closed g = check_from g.edges g.edges
