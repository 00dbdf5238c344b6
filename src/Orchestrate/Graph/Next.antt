-- ===== src/Orchestrate/Graph/Next.antt =====
-- Which issues a round unblocks.
use conductr.Prelude.{
  ℕ, List, [], ◌∷◌, ◌++◌, Option, none, some, Bool, true, false, not, ◌||◌, ◌==◌, ◌≡◌, refl, arith,
  filter, length, filter_map, contains, count, IsAscending, flatten, all, any, contains-append,
  not-contains_of_above,
}
use conductr.Prelude.Map.{get, keys}
use conductr.Orchestrate.Graph.{Edges, is_relevant, already_emitted, still_blocks, unblocked}
use conductr.Orchestrate.Graph.Settle.{get_of_absent}

pub already_emitted-flatten :
    (batches : List (List ℕ)) (n : ℕ) → already_emitted batches n ≡ contains n (flatten batches)
unfolding already_emitted
already_emitted-flatten [] n = refl
already_emitted-flatten (b ∷ bs) n =
    ground (arith, already_emitted-flatten bs n, contains-append n b (flatten bs))

-- No relevant dependency is outside `seen`.
abbrev pub is_met : Edges → List ℕ → List ℕ → ℕ → Bool
is_met edges closed seen d = not (is_relevant edges closed d) || contains d seen

-- How often the issue stands in the list of those unblocked.
abbrev pub unblocked_count : Option ℕ → ℕ
unblocked_count none = 0
unblocked_count (some n) = 1

module _ (edges : Edges) (closed : List ℕ) (batches : List (List ℕ)) (batch : List ℕ)
    (indegree : List (ℕ × ℕ)) where
  abbrev pub unblocks : ℕ × List ℕ → Option ℕ
  unblocks = unblocked edges closed batches batch indegree

  pub count-filter_map-unblocked :
      (k : ℕ) (m : Edges)
      → IsAscending (keys m)
      → count k (filter_map unblocks m)
        ≡ elim (get k m) [ none ↦ 0 | some deps ↦ unblocked_count (unblocks (k, deps)) ]
  unfolding unblocked
  count-filter_map-unblocked k [] h = refl
  count-filter_map-unblocked k ((j, ds) ∷ m) h = ground (
    arith,
    count-filter_map-unblocked k m h.1,
    get_of_absent j m,
    not-contains_of_above j (keys m) h.0,
  )

  -- What blocks nobody is met by what was emitted, this batch included.
  pub all-is_met :
      (deps : List ℕ)
      → length (filter (still_blocks edges closed batches batch) deps) ≡ 0
      → all (is_met edges closed (flatten batches ++ batch)) deps ≡ true
  unfolding still_blocks
  all-is_met [] h = refl
  all-is_met (d ∷ ds) h = ground (
    arith,
    all-is_met ds,
    already_emitted-flatten batches d,
    contains-append d (flatten batches) batch,
  )

  pub any-not-is_met :
      (deps : List ℕ)
      → (length (filter (still_blocks edges closed batches batch) deps) == 0) ≡ false
      → any (λ d. not (is_met edges closed (flatten batches ++ batch) d)) deps ≡ true
  unfolding still_blocks
  any-not-is_met [] h = cc
  any-not-is_met (d ∷ ds) h = ground (
    arith,
    any-not-is_met ds,
    already_emitted-flatten batches d,
    contains-append d (flatten batches) batch,
  )
