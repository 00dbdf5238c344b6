-- ===== src/Orchestrate/Graph/Round.antt =====
-- One round of the `while` loop, and the invariant.
use conductr.Prelude.{
  ℕ, ◌+◌, ◌<◌, is_empty, List, [], ◌∷◌, ◌++◌, none, some, true, false, not, ◌≡◌, arith, length,
  contains, count, IsAscending, flatten, all, any, Bool-cases, inl, inr, contains-count, append-nil,
  sort, count-sort, length-sort, flatten-append, count-append, length-append, ◌∙◌, ap,
}
use conductr.Prelude.Map.{get, keys}
use conductr.Orchestrate.Graph.{Edges, Kahn, round, next_ready, settle, unblocked}
use conductr.Orchestrate.Graph.Settle.{
  is_done, done_count, get-settle, keys-settle, All-contained, get_of_absent, contains-of-get,
  get_of_contained,
}
use conductr.Orchestrate.Graph.Next.{
  is_met, unblocked_count, count-filter_map-unblocked, all-is_met, any-not-is_met,
}
use conductr.Orchestrate.Graph.Invariant.{IsOrdered-snoc, Inv}

length_pos : (xs : List ℕ) → is_empty xs ≡ false → 0 < length xs
length_pos [] h = cc
length_pos (x ∷ xs) h = omega arith

module _ (edges : Edges) (closed : List ℕ) (ascending : IsAscending (keys edges)) (s : Kahn)
    (inv : Inv edges closed s) where
  batch : List ℕ
  batch = sort s.ready

  next : List ℕ
  next = next_ready edges closed s batch

  count-batch : (k : ℕ) → count k batch ≡ count k s.ready
  unfolding batch
  count-batch k = count-sort k s.ready

  count-next :
      (k : ℕ)
      → count k next ≡ elim (get k edges) [
        | none ↦ 0
        | some deps ↦ unblocked_count (unblocked edges closed s.batches batch s.indegree (k, deps))
      ]
  unfolding next next_ready
  count-next k =
      count-filter_map-unblocked edges closed s.batches batch s.indegree k edges ascending

  -- What was emitted after the round.
  flatten-batches : flatten (s.batches ++ batch ∷ []) ≡ flatten s.batches ++ batch
  flatten-batches =
      flatten-append s.batches (batch ∷ []) ∙ ap (λ l. flatten s.batches ++ l) (append-nil batch)

  -- An issue that the round unblocks is in the graph, was not done, and is listed once.
  next-not-done :
      (k : ℕ) → contains k next ≡ true → (is_done k s.indegree ≡ false) × (count k next ≡ 1)
  unfolding unblocked
  next-not-done k c = ground (arith, count-next k, contains-count k next)

  next-keys : (k : ℕ) → contains k next ≡ true → contains k (keys s.indegree) ≡ true
  next-keys k c = rw inv.same_keys (elim (Bool-cases (contains k (keys edges))) [
    | inl e ↦ e
    | inr e ↦ ground (arith, count-next k, contains-count k next, get_of_absent k edges e)
  ])

  counted_after :
      (k : ℕ)
      → count k (flatten s.batches ++ batch) + count k next ≡ done_count k (settle next s.indegree)
  counted_after k = ground (
    arith,
    inv.counted k,
    count-append k (flatten s.batches) batch,
    count-batch k,
    get-settle k next s.indegree,
    next-not-done k,
    contains-count k next,
  )

  next_met :
      (k : ℕ) (deps : List ℕ)
      → contains k next ≡ true
      → get k edges ≡ some deps
      → all (is_met edges closed (flatten s.batches ++ batch)) deps ≡ true
  unfolding unblocked
  next_met k deps c e =
      all-is_met edges closed s.batches batch s.indegree deps
        (ground (arith, count-next k, contains-count k next))

  still_waiting :
      (k : ℕ) (deps : List ℕ)
      → get k edges ≡ some deps
      → is_done k (settle next s.indegree) ≡ false
      → any (λ d. not (is_met edges closed (flatten s.batches ++ batch) d)) deps ≡ true
  unfolding unblocked
  still_waiting k deps e d =
      let listed = contains-of-get k edges deps e in
      let entry = get_of_contained k s.indegree (rw inv.same_keys listed) in
      any-not-is_met edges closed s.batches batch s.indegree deps (
        ground (
          arith,
          count-next k,
          contains-count k next,
          get-settle k next s.indegree,
          contains-count k batch,
          count-batch k,
          inv.counted k,
        ))

  pub round-Inv : Inv edges closed (round edges closed s)
  unfolding round next batch
  round-Inv = record {
    same_keys =
        keys-settle next s.indegree (rw inv.same_keys ascending)
          (All-contained next (keys s.indegree) next-keys)
        ∙ inv.same_keys;
    counted = λ k. rw flatten-batches (counted_after k);
    visited_length =
        rw flatten-batches
          (omega (arith, inv.visited_length, length-append (flatten s.batches) batch));
    ready_met = λ k deps c e. rw flatten-batches (next_met k deps c e);
    ordered = IsOrdered-snoc edges closed [] s.batches batch inv.ordered (λ k deps c e.
        inv.ready_met k deps
          (ground (arith, contains-count k batch, contains-count k s.ready, count-batch k)) e);
    waiting = λ k deps e d. rw flatten-batches (still_waiting k deps e d);
  }

  -- A round visits at least one issue.
  pub visited_grows : is_empty s.ready ≡ false → s.visited < (round edges closed s).visited
  unfolding round batch
  visited_grows h = grind (arith, length-sort, length_pos s.ready)
