-- ===== src/Orchestrate/Graph/Termination.antt =====
-- The fuel of the `while` loop.
use conductr.Prelude.{
  ℕ, zero, suc, ◌+◌, ◌≤◌, ◌<◌, List, [], ◌∷◌, some, true, ◌≡◌, refl, arith, length, count,
  IsAscending, flatten, Bool-cases, inl, inr, is_empty, length-le_of_count, subst,
}
use conductr.Prelude.Map.{keys}
use conductr.Orchestrate.Graph.{Edges, Kahn, round, run}
use conductr.Orchestrate.Graph.Settle.{done_count}
use conductr.Orchestrate.Graph.Invariant.{Inv}
use conductr.Orchestrate.Graph.Round.{round-Inv, visited_grows}

-- Nothing but an issue of the graph is done.
pub done_count-le : (k : ℕ) (m : List (ℕ × ℕ)) → done_count k m ≤ count k (keys m)
done_count-le k [] = omega arith
done_count-le k ((j, v) ∷ m) = ground (arith, done_count-le k m)

module _ (edges : Edges) (closed : List ℕ) (ascending : IsAscending (keys edges)) where
  pub emitted-Below :
      (s : Kahn) → Inv edges closed s → (k : ℕ) → count k (flatten s.batches) ≤ count k (keys edges)
  emitted-Below s inv k =
      let bound : done_count k s.indegree ≤ count k (keys edges) =
        subst (λ l. done_count k s.indegree ≤ count k l) inv.same_keys
          (done_count-le k s.indegree) in
      omega (arith, inv.counted k)

  visited-le : (s : Kahn) → Inv edges closed s → s.visited ≤ length (keys edges)
  visited-le s inv = omega (
    arith,
    inv.visited_length,
    length-le_of_count (flatten s.batches) (keys edges) (emitted-Below s inv),
  )

  pub run-ends :
      (fuel : ℕ) (s : Kahn)
      → Inv edges closed s
      → length (keys edges) < fuel + s.visited
      → (last : Kahn) × (run edges closed fuel s ≡ some last)
        × Inv edges closed last
        × (is_empty last.ready ≡ true)
  unfolding run
  run-ends zero s inv h = absurd (omega (arith, visited-le s inv))
  run-ends (suc fuel) s inv h = elim (Bool-cases (is_empty s.ready)) [
    | inl e ↦ (s, rw e refl, inv, e)
    | inr e ↦ rw e (
        run-ends fuel (round edges closed s) (round-Inv edges closed ascending s inv)
          (omega (arith, visited_grows edges closed ascending s inv e)))
  ]
