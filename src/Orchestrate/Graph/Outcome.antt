-- ===== src/Orchestrate/Graph/Outcome.antt =====
-- The state in which the loop of `topo_batches` ends: what was emitted, and what is left over.
use conductr.Prelude.{
  ℕ, suc, ◌≤◌, ◌<◌, List, [], ◌∷◌, some, true, false, not, ◌&&◌, ◌≡◌, ◌≢◌, refl, arith, length,
  contains, count, IsAscending, flatten, Bool-cases, Option-cases, inl, inr, any, ◌==◌,
  contains-count, is_empty, any_map, count-eq_of_length, count_of_ascending, length-le_of_count,
  sym, ◌∙◌, ap, subst,
}
use conductr.Prelude.Map.{get, keys, contains_key-keys}
use conductr.Core.DepGraph.{DepGraph}
use conductr.Orchestrate.Graph.{
  Kahn, is_relevant, start, run, finish, positive_keys, topo_batches, or_zero,
}
use conductr.Orchestrate.Graph.Settle.{
  is_done, done_count, contains-of-get, count-positive_keys, get_of_contained,
}
use conductr.Orchestrate.Graph.Next.{is_met}
use conductr.Orchestrate.Graph.Invariant.{Inv, start-Inv}
use conductr.Orchestrate.Graph.Termination.{run-ends, emitted-Below}

pub length-keys {ℓ} : {V : Type ℓ} (m : List (ℕ × V)) → length (keys m) ≡ length m
length-keys [] = refl
length-keys ((k, v) ∷ m) = ap suc (length-keys m)

topo_batches-of-run :
    (graph : DepGraph) (closed : List ℕ) (last : Kahn)
    → length (start graph.edges closed).indegree ≡ length graph.edges
    → run graph.edges closed (suc (length graph.edges)) (start graph.edges closed) ≡ some last
    → topo_batches graph closed ≡ some (finish (length graph.edges) last)
unfolding topo_batches
topo_batches-of-run graph closed last total ends = rw (topo_batches, ends, total) refl

module _ (graph : DepGraph) (closed : List ℕ) (ascending : IsAscending (keys graph.edges)) where
  -- The state in which the loop ends.
  pub topo_batches-last :
      (last : Kahn) × (topo_batches graph closed ≡ some (finish (length graph.edges) last))
      × Inv graph.edges closed last
      × (is_empty last.ready ≡ true)
  topo_batches-last =
      let first = start graph.edges closed in
      let inv = start-Inv graph.edges closed ascending in
      let total : length first.indegree ≡ length graph.edges =
        sym (length-keys first.indegree) ∙ ap length inv.same_keys ∙ length-keys graph.edges in
      let (last, ends, inv', idle) =
        run-ends graph.edges closed ascending (suc (length graph.edges)) first inv
          (omega (arith, length-keys graph.edges)) in
      (last, topo_batches-of-run graph closed last total ends, inv', idle)

  module _ (last : Kahn) (inv : Inv graph.edges closed last)
      (idle : is_empty last.ready ≡ true) where
    count-emitted : (k : ℕ) → count k (flatten last.batches) ≡ done_count k last.indegree
    count-emitted k = ground (arith, inv.counted k)

    pub all_emitted :
        (last.visited == length graph.edges) ≡ true
        → (k : ℕ) → count k (flatten last.batches) ≡ count k (keys graph.edges)
    all_emitted e =
        count-eq_of_length (flatten last.batches) (keys graph.edges)
          (emitted-Below graph.edges closed ascending last inv)
          (ground (arith, inv.visited_length, length-keys graph.edges))

    unlisted :
        positive_keys last.indegree ≡ []
        → (k : ℕ) → count k (keys graph.edges) ≤ count k (flatten last.batches)
    unlisted e k = elim (Bool-cases (contains k (keys graph.edges))) [
      | inr absent ↦ ground (arith, contains-count k (keys graph.edges))
      | inl listed ↦
          let here : contains k (keys last.indegree) ≡ true = rw inv.same_keys listed in
          let (v, entry) = get_of_contained k last.indegree here in
          let none_left : count k (positive_keys last.indegree) ≡ 0 = rw e refl in
          ground (
            arith,
            count-emitted k,
            count_of_ascending k (keys graph.edges) ascending,
            count-positive_keys k last.indegree (rw inv.same_keys ascending),
          )
    ]

    pub some_left : (last.visited == length graph.edges) ≡ false → positive_keys last.indegree ≢ []
    some_left e empty = ground (
      arith,
      inv.visited_length,
      length-keys graph.edges,
      length-le_of_count (keys graph.edges) (flatten last.batches) (unlisted empty),
      length-le_of_count (flatten last.batches) (keys graph.edges)
          (emitted-Below graph.edges closed ascending last inv),
    )

    -- A dependency that was not emitted is left over itself.
    left_over :
        (d : ℕ)
        → not (is_met graph.edges closed (flatten last.batches) d) ≡ true
        → is_relevant graph.edges closed d && contains d (positive_keys last.indegree) ≡ true
    left_over d h =
        let listed : contains d (keys graph.edges) ≡ true =
          ground (arith, contains_key-keys d graph.edges) in
        let here : contains d (keys last.indegree) ≡ true = rw inv.same_keys listed in
        let (v, entry) = get_of_contained d last.indegree here in
        ground (
          arith,
          count-emitted d,
          contains-count d (flatten last.batches),
          contains-count d (positive_keys last.indegree),
          count-positive_keys d last.indegree (rw inv.same_keys ascending),
        )

    positive_entry :
        (k : ℕ)
        → contains k (positive_keys last.indegree) ≡ true
        → (v : ℕ) × (get k last.indegree ≡ some v) × (is_done k last.indegree ≡ false)
    positive_entry k h =
        let positive : 0 < or_zero (get k last.indegree) = ground (
          arith,
          contains-count k (positive_keys last.indegree),
          count-positive_keys k last.indegree (rw inv.same_keys ascending),
        ) in
        elim (Option-cases (get k last.indegree)) [
          | inl e ↦ ground arith
          | inr (v, e) ↦ (v, e, ground arith)
        ]

    pub waits_for_left :
        (k : ℕ)
        → contains k (positive_keys last.indegree) ≡ true
        → (deps : List ℕ) × (get k graph.edges ≡ some deps)
          × (any
                (λ d. is_relevant graph.edges closed d && contains d (positive_keys last.indegree))
                deps
              ≡ true)
    waits_for_left k h =
        let entry = positive_entry k h in
        let listed : contains k (keys graph.edges) ≡ true =
          subst (λ l. contains k l ≡ true) inv.same_keys
            (contains-of-get k last.indegree entry.0 entry.1) in
        let (deps, e) = get_of_contained k graph.edges listed in
        (deps, e, any_map left_over deps (inv.waiting k deps e entry.2))
