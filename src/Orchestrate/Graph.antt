-- ===== src/Orchestrate/Graph.antt =====
-- crates/conductr-orchestrate/src/graph.rs: the batches of issues that can run in parallel.
-- The `while` loop takes fuel: one more than the number of issues, since each round but the last takes
-- an issue.
mod Settle
mod Next
mod Invariant
mod Round
mod Termination
mod Outcome
pub mod Sorted
use conductr.Prelude.{
  ℕ, zero, suc, ◌+◌, List, [], ◌∷◌, ◌++◌, Option, none, some, Bool, true, false, not, ◌&&◌, ◌||◌,
  if◌then◌else◌, ◌==◌, ltb, length, is_empty, any, filter, filter_map, foldl, contains, sort,
}
use conductr.Prelude.Map.{get, insert, keys, contains_key}
use conductr.Prelude.Result.{Result, ok, err}
use conductr.Core.DepGraph.{DepGraph, GraphError, cycle}

abbrev pub Edges : Type 0
Edges = List (ℕ × List ℕ)

-- A dependency that has to be waited for: it is open, and in the graph.
abbrev pub is_relevant : Edges → List ℕ → ℕ → Bool
is_relevant edges closed d = not (contains d closed) && contains_key d edges

-- The first two loops: every issue with the number of its relevant dependencies.
unfoldable pub count_deps : Edges → List ℕ → List (ℕ × ℕ) → Edges → List (ℕ × ℕ)
count_deps edges closed m [] = m
count_deps edges closed m ((from, deps) ∷ rest) =
    count_deps edges closed (insert from (length (filter (is_relevant edges closed) deps)) m) rest

unfoldable pub initial_indegree : Edges → List ℕ → List (ℕ × ℕ)
unfolding count_deps
initial_indegree edges closed =
    count_deps edges closed (foldl (λ m n. insert n 0 m) [] (keys edges)) edges

-- The variables of the `while` loop.
pub record Kahn : Type 0 where
  pub batches : List (List ℕ)
  pub ready : List ℕ
  pub indegree : List (ℕ × ℕ)
  pub visited : ℕ

unfoldable pub already_emitted : List (List ℕ) → ℕ → Bool
already_emitted batches n = any (λ b. contains n b) batches

abbrev pub or_zero : Option ℕ → ℕ
or_zero none = 0
or_zero (some v) = v

-- The loop that clears the in-degree of the issues that a round unblocked.
unfoldable pub settle : List ℕ → List (ℕ × ℕ) → List (ℕ × ℕ)
settle next indegree = foldl (λ m n. insert n 0 m) indegree next

module _ (edges : Edges) (closed : List ℕ) where
  pub still_blocks : List (List ℕ) → List ℕ → ℕ → Bool
  unfolding already_emitted
  still_blocks batches batch d =
      is_relevant edges closed d && not (contains d batch) && not (already_emitted batches d)

  -- The closure of `filter_map`: the node, if this round unblocks it.
  pub unblocked : List (List ℕ) → List ℕ → List (ℕ × ℕ) → ℕ × List ℕ → Option ℕ
  unfolding still_blocks
  unblocked batches batch indegree (node, deps) =
      if contains node batch
      then none
      else if or_zero (get node indegree) == 0
      then none
      else if length (filter (still_blocks batches batch) deps) == 0
      then some node
      else none

  pub next_ready : Kahn → List ℕ → List ℕ
  unfolding unblocked
  next_ready s batch = filter_map (unblocked s.batches batch s.indegree) edges

  -- The body of the `while` loop.
  pub round : Kahn → Kahn
  unfolding next_ready settle
  round s =
      let batch = sort s.ready in
      let next = next_ready s batch in
      record {
        batches = s.batches ++ batch ∷ [];
        ready = next;
        indegree = settle next s.indegree;
        visited = s.visited + length batch;
      }

  -- `none`: the fuel ran out.
  pub run : ℕ → Kahn → Option Kahn
  unfolding round
  run zero s = none
  run (suc fuel) s = let rest = run fuel (round s) in if is_empty s.ready then some s else rest

unfoldable pub zero_keys : List (ℕ × ℕ) → List ℕ
zero_keys = filter_map (λ (n, d). if d == 0 then some n else none)

unfoldable pub positive_keys : List (ℕ × ℕ) → List ℕ
positive_keys = filter_map (λ (n, d). if ltb 0 d then some n else none)

unfoldable pub start : Edges → List ℕ → Kahn
unfolding initial_indegree zero_keys
start edges closed =
    let indegree = initial_indegree edges closed in
    record { batches = []; ready = zero_keys indegree; indegree = indegree; visited = 0 }

unfoldable pub finish : ℕ → Kahn → Result (List (List ℕ)) GraphError
unfolding positive_keys
finish total s = if s.visited == total then ok s.batches else err (cycle (positive_keys s.indegree))

unfoldable pub topo_batches : DepGraph → List ℕ → Option (Result (List (List ℕ)) GraphError)
topo_batches graph closed =
    let first = start graph.edges closed in
    elim (run graph.edges closed (suc (length graph.edges)) first) [
      | none ↦ none
      | some last ↦ some (finish (length first.indegree) last)
    ]
