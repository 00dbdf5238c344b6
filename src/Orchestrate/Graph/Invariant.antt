-- ===== src/Orchestrate/Graph/Invariant.antt =====
-- The invariant of the `while` loop, and its start.
use conductr.Prelude.{
  ℕ, ◌+◌, List, [], ◌∷◌, ◌++◌, some, true, false, not, ◌==◌, ◌≡◌, refl, arith, filter, length,
  contains, count, IsAscending, flatten, all, any, contains-count, append_assoc, append-nil,
}
use conductr.Prelude.Map.{get, keys}
use conductr.Orchestrate.Graph.{Edges, Kahn, is_relevant, zero_keys, start, initial_indegree}
use conductr.Orchestrate.Graph.Settle.{
  is_done, done_count, get-count_deps, keys-initial_indegree, count-zero_keys,
}
use conductr.Orchestrate.Graph.Next.{is_met}

-- Each batch waits only for what `seen` and the batches before it hold.
abbrev pub IsOrdered : Edges → List ℕ → List ℕ → List (List ℕ) → Type 0
IsOrdered edges closed seen [] = Unit
IsOrdered edges closed seen (batch ∷ rest) =
    ((k : ℕ) (deps : List ℕ)
      → contains k batch ≡ true
      → get k edges ≡ some deps
      → all (is_met edges closed seen) deps ≡ true)
    × IsOrdered edges closed (seen ++ batch) rest

pub IsOrdered-snoc :
    (edges : Edges) (closed seen : List ℕ) (bs : List (List ℕ)) (b : List ℕ)
    → IsOrdered edges closed seen bs
    → ((k : ℕ) (deps : List ℕ)
        → contains k b ≡ true
        → get k edges ≡ some deps
        → all (is_met edges closed (seen ++ flatten bs)) deps ≡ true)
    → IsOrdered edges closed seen (bs ++ b ∷ [])
IsOrdered-snoc edges closed seen [] b h met = (λ k deps c e. rw append-nil at met k deps c e, tt)
IsOrdered-snoc edges closed seen (x ∷ bs) b h met = (
  h.0,
  IsOrdered-snoc edges closed (seen ++ x) bs b h.1
      (λ k deps c e. rw (append_assoc seen x (flatten bs)) (met k deps c e)),
)

pub record Inv (edges : Edges) (closed : List ℕ) (s : Kahn) : Type 0 where
  pub same_keys : keys s.indegree ≡ keys edges
  -- An issue with in-degree zero was emitted, or is ready, and that once; no other was or is.
  pub counted : (k : ℕ) → count k (flatten s.batches) + count k s.ready ≡ done_count k s.indegree
  pub visited_length : s.visited ≡ length (flatten s.batches)
  pub ready_met :
      (k : ℕ) (deps : List ℕ)
      → contains k s.ready ≡ true
      → get k edges ≡ some deps
      → all (is_met edges closed (flatten s.batches)) deps ≡ true
  pub ordered : IsOrdered edges closed [] s.batches
  -- An issue with a higher in-degree has a dependency that was not emitted.
  pub waiting :
      (k : ℕ) (deps : List ℕ)
      → get k edges ≡ some deps
      → is_done k s.indegree ≡ false
      → any (λ d. not (is_met edges closed (flatten s.batches) d)) deps ≡ true

module _ (edges : Edges) (closed : List ℕ) where
  all-is_met-none :
      (deps : List ℕ)
      → length (filter (is_relevant edges closed) deps) ≡ 0
      → all (is_met edges closed []) deps ≡ true
  all-is_met-none [] h = refl
  all-is_met-none (d ∷ ds) h = ground (arith, all-is_met-none ds)

  any-not-is_met-none :
      (deps : List ℕ)
      → (length (filter (is_relevant edges closed) deps) == 0) ≡ false
      → any (λ d. not (is_met edges closed [] d)) deps ≡ true
  any-not-is_met-none [] h = cc
  any-not-is_met-none (d ∷ ds) h = ground (arith, any-not-is_met-none ds)

  module _ (ascending : IsAscending (keys edges)) where
    get-initial_indegree :
        (k : ℕ) (deps : List ℕ)
        → get k edges ≡ some deps
        → get k (initial_indegree edges closed)
          ≡ some (length (filter (is_relevant edges closed) deps))
    unfolding initial_indegree
    get-initial_indegree k deps e = get-count_deps edges closed k edges _ deps ascending e

    ready_done :
        (k : ℕ)
        → count k (zero_keys (initial_indegree edges closed))
          ≡ done_count k (initial_indegree edges closed)
    ready_done k = count-zero_keys k _ (rw (keys-initial_indegree edges closed ascending) ascending)

    pub start-Inv : Inv edges closed (start edges closed)
    unfolding start
    start-Inv = record {
      same_keys = keys-initial_indegree edges closed ascending;
      counted = λ k. omega (arith, ready_done k);
      visited_length = refl;
      ready_met = λ k deps c e. all-is_met-none deps (
          ground (
            arith,
            get-initial_indegree k deps e,
            ready_done k,
            contains-count k (zero_keys (initial_indegree edges closed)),
          ));
      ordered = tt;
      waiting =
          λ k deps e d. any-not-is_met-none deps (ground (arith, get-initial_indegree k deps e));
    }
