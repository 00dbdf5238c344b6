-- ===== src/Orchestrate/Graph/Sorted.antt =====
-- What `topo_batches` returns.
use conductr.Prelude.{
  ℕ, zero, suc, ◌<◌, List, [], ◌∷◌, ◌++◌, Option, none, some, Bool, true, if◌then◌else◌, not, ◌&&◌,
  ◌≡◌, ◌≢◌, ltb, refl, arith, length, contains, count, IsAscending, flatten, Bool-cases,
  Option-cases, inl, inr, any, ◌==◌, all, ◌||◌, is_empty, any-all, count_of_ascending,
}
use conductr.Prelude.Map.{get, keys, contains_key, contains_key-keys}
use conductr.Prelude.Result.{Result, ok, err}
use conductr.Core.DepGraph.{DepGraph, GraphError, cycle, dependency_outside_batch}
use conductr.Orchestrate.Graph.{Edges, Kahn, is_relevant, finish, positive_keys, topo_batches}
use conductr.Orchestrate.Graph.Settle.{get_of_absent}
use conductr.Orchestrate.Graph.Next.{is_met}
use conductr.Orchestrate.Graph.Invariant.{IsOrdered, Inv}
use conductr.Orchestrate.Graph.Outcome.{topo_batches-last, all_emitted, some_left, waits_for_left}

abbrev deps_or_none : Option (List ℕ) → List ℕ
deps_or_none none = []
deps_or_none (some deps) = deps

abbrev pub deps_in : Edges → ℕ → List ℕ
deps_in edges k = deps_or_none (get k edges)

-- Each batch waits only for what `seen` and the batches before it hold.
abbrev pub are_ordered : Edges → List ℕ → List ℕ → List (List ℕ) → Bool
are_ordered edges closed seen [] = true
are_ordered edges closed seen (batch ∷ rest) =
    all (λ k. all (is_met edges closed seen) (deps_in edges k)) batch
    && are_ordered edges closed (seen ++ batch) rest

-- Each issue of the list has an open dependency in the list.
abbrev pub all_wait : Edges → List ℕ → List ℕ → Bool
all_wait edges closed left =
    all (λ k. any (λ d. is_relevant edges closed d && contains d left) (deps_in edges k)) left

-- What a result has to meet.
abbrev pub IsSorted : DepGraph → List ℕ → Result (List (List ℕ)) GraphError → Type 0
IsSorted graph closed (ok batches) =
    ((k : ℕ) → count k (flatten batches) ≡ (if contains_key k graph.edges then 1 else 0))
    × (are_ordered graph.edges closed [] batches ≡ true)
IsSorted graph closed (err (cycle left)) = (left ≢ []) × (all_wait graph.edges closed left ≡ true)
IsSorted graph closed (err (dependency_outside_batch from to)) = ⊥

all_of_contained :
    (p : ℕ → Bool) (xs : List ℕ) → ((k : ℕ) → contains k xs ≡ true → p k ≡ true) → all p xs ≡ true
all_of_contained p [] h = refl
all_of_contained p (x ∷ xs) h =
    ground (arith, h x, all_of_contained p xs (λ k c. h k (ground arith)))

contained_of_all :
    (p : ℕ → Bool) (xs : List ℕ) (k : ℕ) → all p xs ≡ true → contains k xs ≡ true → p k ≡ true
contained_of_all p [] k h c = cc
contained_of_all p (x ∷ xs) k h c = ground (arith, contained_of_all p xs k)

are_ordered-of-IsOrdered :
    (edges : Edges) (closed seen : List ℕ) (bs : List (List ℕ))
    → IsOrdered edges closed seen bs
    → are_ordered edges closed seen bs ≡ true
are_ordered-of-IsOrdered edges closed seen [] h = refl
are_ordered-of-IsOrdered edges closed seen (b ∷ bs) h =
    let first =
      all_of_contained (λ k. all (is_met edges closed seen) (deps_in edges k)) b
        (λ k c. elim (Option-cases (get k edges)) [
          | inl e ↦ rw e refl
          | inr (deps, e) ↦ rw e (h.0 k deps c e)
        ]) in
    rw (first, are_ordered-of-IsOrdered edges closed (seen ++ b) bs h.1) refl

module _ (graph : DepGraph) (closed : List ℕ) (ascending : IsAscending (keys graph.edges)) where
  finish-IsSorted :
      (last : Kahn)
      → Inv graph.edges closed last
      → is_empty last.ready ≡ true
      → IsSorted graph closed (finish (length graph.edges) last)
  unfolding finish
  finish-IsSorted last inv idle = elim (Bool-cases (last.visited == length graph.edges)) [
    | inl e ↦ rw e (
      λ k. ground (
        arith,
        all_emitted graph closed ascending last inv idle e k,
        count_of_ascending k (keys graph.edges) ascending,
        contains_key-keys k graph.edges,
      ),
      are_ordered-of-IsOrdered graph.edges closed [] last.batches inv.ordered,
    )
    | inr e ↦ rw e (
      some_left graph closed ascending last inv idle e,
      all_of_contained _ (positive_keys last.indegree) (λ k c.
          let (deps, same, waits) = waits_for_left graph closed ascending last inv idle k c in
          rw same waits),
    )
  ]

  -- For a graph whose issues stand in ascending order, as a `BTreeMap` keeps them, the sort
  -- returns a result. If that is `Ok`, the batches hold each issue of the graph exactly once and
  -- nothing else, and each dependency of an issue that is open and in the graph stands in an
  -- earlier batch. If it is an error, it is `Cycle` with a nonempty list of issues, each of which
  -- has an open dependency in that list.
  pub topo_batches-IsSorted :
      (r : Result (List (List ℕ)) GraphError) × (topo_batches graph closed ≡ some r)
      × IsSorted graph closed r
  topo_batches-IsSorted =
      let (last, e, inv, idle) = topo_batches-last graph closed ascending in
      (finish (length graph.edges) last, e, finish-IsSorted last inv idle)

-- Every dependency that has to be waited for has a lower rank.
abbrev is_above : Edges → List ℕ → (ℕ → ℕ) → ℕ → Bool
is_above edges closed rank k =
    all (λ d. not (is_relevant edges closed d) || ltb (rank d) (rank k)) (deps_in edges k)

abbrev pub is_ranked : Edges → List ℕ → (ℕ → ℕ) → Bool
is_ranked edges closed rank = all (is_above edges closed rank) (keys edges)

module _ (graph : DepGraph) (closed : List ℕ) (rank : ℕ → ℕ)
    (ranked : is_ranked graph.edges closed rank ≡ true) where
  above_deps : (k : ℕ) → is_above graph.edges closed rank k ≡ true
  above_deps k = elim (Bool-cases (contains k (keys graph.edges))) [
    | inl listed ↦ contained_of_all _ (keys graph.edges) k ranked listed
    | inr absent ↦ rw (get_of_absent k graph.edges absent) refl
  ]

  no_cycle :
      (left : List ℕ)
      → all_wait graph.edges closed left ≡ true
      → (n k : ℕ) → rank k < n
      → contains k left ≡ true
      → ⊥
  no_cycle left waits zero k h c = omega arith
  no_cycle left waits (suc n) k h c =
      let (d, both, below) =
        any-all _ _ (deps_in graph.edges k) (contained_of_all _ left k waits c) (above_deps k) in
      no_cycle left waits n d (ground arith) (ground arith)

  ok_of_ranked :
      (r : Result (List (List ℕ)) GraphError)
      → IsSorted graph closed r
      → (batches : List (List ℕ)) × (r ≡ ok batches)
  ok_of_ranked (ok batches) h = (batches, refl)
  ok_of_ranked (err (cycle [])) h = absurd (h.0 refl)
  ok_of_ranked (err (cycle (k ∷ left))) h =
      absurd (no_cycle (k ∷ left) h.1 (suc (rank k)) k (omega arith) (ground arith))
  ok_of_ranked (err (dependency_outside_batch from to)) h = absurd h

  -- An error is never returned for a graph without a cycle: if some numbering puts each open
  -- dependency within the graph below the issue that has it, and the issues stand in ascending
  -- order, the sort returns batches.
  pub topo_batches-ok :
      IsAscending (keys graph.edges)
      → (batches : List (List ℕ)) × (topo_batches graph closed ≡ some (ok batches))
  topo_batches-ok ascending =
      let (r, e, sorted) = topo_batches-IsSorted graph closed ascending in
      let (batches, same) = ok_of_ranked r sorted in (batches, cc)
