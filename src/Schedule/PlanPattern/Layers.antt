-- ===== src/Schedule/PlanPattern/Layers.antt =====
-- The batches of a plan, as layers of its dependencies.
use conductr.Prelude.{
  ℕ, zero, suc, ◌+◌, ◌≤◌, ◌<◌, Text, List, [], ◌∷◌, ◌++◌, Bool, true, false, not, ◌&&◌, ◌||◌,
  if◌then◌else◌, ◌==◌, leb, ltb, contains, count, contains-count, filter, is_empty, ◌≡◌, refl, ap,
  ◌∙◌, arith, Bool-cases, Option-cases, inl, inr,
}
use mathlib.Core.Path.{fun_ext}
use conductr.Schedule.FromPlan.{PlanItem}
use conductr.Schedule.PlanPattern.{
  index_of, edges_of_item, edges_from, fill_degrees, run_batch, run_batches, from_to, count_items,
  batch_indices,
}
use conductr.Schedule.PlanPattern.Edges.{
  waits, pending, waits-pending, targets, fill_degrees-pending, fill_successors-targets, fell,
}
use conductr.Schedule.PlanPattern.Batches.{finish, Fresh, pending-finish-le, Counts, run_batch-lem}

-- The items below `n` that are not done and wait for none that is not done.
abbrev pub is_ready : List (ℕ × ℕ) → ℕ → List ℕ → ℕ → Bool
is_ready edges n done k = ltb k n && not (contains k done) && not (waits edges done k)

-- Each batch holds each item that is ready once, and no other; after the last, none is ready.
abbrev pub AreLayers : List (ℕ × ℕ) → ℕ → List ℕ → List (List ℕ) → Type 0
AreLayers edges n done [] = (k : ℕ) → is_ready edges n done k ≡ false
AreLayers edges n done (batch ∷ batches) =
    (is_empty batch ≡ false)
    × ((k : ℕ) → count k batch ≡ (if is_ready edges n done k then 1 else 0))
    × AreLayers edges n (finish batch done) batches

-- How many items below `n` are not done.
abbrev left : ℕ → List ℕ → ℕ
left zero done = 0
left (suc n) done = left n done + (if contains n done then 0 else 1)

contains-finish :
    (batch done : List ℕ) (k : ℕ)
    → contains k (finish batch done) ≡ (contains k batch || contains k done)
contains-finish [] done k = refl
contains-finish (j ∷ batch) done k = ground (arith, contains-finish batch (j ∷ done) k)

left-le : (n : ℕ) (batch done : List ℕ) → left n (finish batch done) ≤ left n done
left-le zero batch done = omega arith
left-le (suc n) batch done = ground (arith, left-le n batch done, contains-finish batch done n)

left-lt :
    (n j : ℕ) (batch done : List ℕ)
    → j < n
    → contains j done ≡ false
    → left n (finish (j ∷ batch) done) < left n done
left-lt zero j batch done b h = omega arith
left-lt (suc n) j batch done b h = elim (Bool-cases (n == j)) [
  | inl e ↦ ground (arith, left-le n (j ∷ batch) done, contains-finish (j ∷ batch) done n)
  | inr e ↦ ground (arith, left-lt n j batch done, contains-finish (j ∷ batch) done n)
]

-- The queue between two batches: what is ready, once.
abbrev Queue : List (ℕ × ℕ) → ℕ → List ℕ → List ℕ → Type 0
Queue edges n done queue = (k : ℕ) → count k queue ≡ (if is_ready edges n done k then 1 else 0)

-- Items that are done wait for none, and none beyond `n` waits.
abbrev Settled : List (ℕ × ℕ) → List ℕ → Type 0
Settled edges done = (k : ℕ) → contains k done ≡ true → pending edges done k ≡ 0

abbrev Within : List (ℕ × ℕ) → ℕ → Type 0
Within edges n = (done : List ℕ) (k : ℕ) → n ≤ k → pending edges done k ≡ 0

Fresh-Queue :
    (edges : List (ℕ × ℕ)) (n : ℕ) (done queue : List ℕ)
    → Queue edges n done queue
    → Fresh queue done
Fresh-Queue edges n done queue q k = ground (arith, q k)

Settled-finish :
    (edges : List (ℕ × ℕ)) (n : ℕ) (done queue : List ℕ)
    → Queue edges n done queue
    → Settled edges done
    → Settled edges (finish queue done)
Settled-finish edges n done queue q s k h = ground (
  arith,
  q k,
  s k,
  contains-finish queue done k,
  contains-count k queue,
  waits-pending edges done k,
  pending-finish-le edges queue done k (Fresh-Queue edges n done queue q),
)

Queue-next :
    (edges : List (ℕ × ℕ)) (n : ℕ) (done queue next : List ℕ)
    → Within edges n
    → Queue edges n done queue
    → Settled edges done
    → ((k : ℕ) → count k next ≡ fell (pending edges done k) (pending edges (finish queue done) k))
    → Queue edges n (finish queue done) next
Queue-next edges n done queue next w q s f k = ground (
  arith,
  f k,
  q k,
  s k,
  w done k,
  contains-finish queue done k,
  contains-count k queue,
  waits-pending edges done k,
  waits-pending edges (finish queue done) k,
)

run_batches-AreLayers :
    (edges : List (ℕ × ℕ)) (n fuel : ℕ) (done queue : List ℕ) (in_degree : ℕ → ℕ)
    → Within edges n
    → left n done + 1 ≤ fuel
    → Queue edges n done queue
    → Settled edges done
    → Counts edges in_degree done
    → AreLayers edges n done (run_batches fuel (λ j. targets j edges) queue in_degree)
unfolding run_batches
run_batches-AreLayers edges n zero done queue in_degree w b q s c = λ k. ground arith
run_batches-AreLayers edges n (suc fuel) done [] in_degree w b q s c = λ k. ground (arith, q k)
run_batches-AreLayers edges n (suc fuel) done (j ∷ queue) in_degree w b q s c =
    let fresh = Fresh-Queue edges n done (j ∷ queue) q in
    let step = run_batch-lem edges (j ∷ queue) done in_degree fresh c in
    let out = run_batch (λ j. targets j edges) (j ∷ queue) in_degree in
    (
      refl,
      q,
      run_batches-AreLayers edges n fuel (finish (j ∷ queue) done) out.0 out.1 w
          (ground (arith, q j, left-lt n j queue done))
          (Queue-next edges n done (j ∷ queue) out.0 w q s step.1)
          (Settled-finish edges n done (j ∷ queue) q s) step.0,
    )

count-from_to : (i n k : ℕ) → count k (from_to i n) ≡ (if leb i k && ltb k (i + n) then 1 else 0)
count-from_to i zero k = ground arith
count-from_to i (suc n) k = ground (arith, count-from_to (i + 1) n k)

count-filter :
    (p : ℕ → Bool) (xs : List ℕ) (k : ℕ) → count k (filter p xs) ≡ (if p k then count k xs else 0)
count-filter p [] k = ground arith
count-filter p (x ∷ xs) k = elim (Bool-cases (x == k)) [
  | inl e ↦
      let same : p x ≡ p k = ap p (ground (arith, e)) in
      ground (arith, count-filter p xs k, same, e)
  | inr e ↦ ground (arith, count-filter p xs k)
]

-- Only items of the plan wait.
pending-edges_of_item :
    (items : List PlanItem) (i : ℕ) (deps : List Text) (done : List ℕ) (k : ℕ)
    → i < k
    → pending (edges_of_item items i deps) done k ≡ 0
pending-edges_of_item items i [] done k h = refl
pending-edges_of_item items i (dep ∷ rest) done k h = elim (Option-cases (index_of dep 0 items)) [
  | inl e ↦ ground (arith, pending-edges_of_item items i rest done k h)
  | inr (j, e) ↦ ground (arith, pending-edges_of_item items i rest done k h)
]

pending-append :
    (xs ys : List (ℕ × ℕ)) (done : List ℕ) (k : ℕ)
    → pending (xs ++ ys) done k ≡ pending xs done k + pending ys done k
pending-append [] ys done k = omega arith
pending-append ((i, j) ∷ xs) ys done k = ground (arith, pending-append xs ys done k)

pending-edges_from :
    (items : List PlanItem) (i : ℕ) (rest : List PlanItem) (done : List ℕ) (k : ℕ)
    → i + count_items rest ≤ k
    → pending (edges_from items i rest) done k ≡ 0
pending-edges_from items i [] done k h = refl
pending-edges_from items i (item ∷ rest) done k h =
    pending-append (edges_of_item items i item.deps) (edges_from items (i + 1) rest) done k
    ∙ omega (
      arith,
      pending-edges_of_item items i item.deps done k (omega arith),
      pending-edges_from items (i + 1) rest done k (omega arith),
    )

left-nil : (n : ℕ) → left n [] ≡ n
left-nil zero = refl
left-nil (suc n) = omega (arith, left-nil n)

-- The batches of a plan are the layers of its dependencies: each batch holds once every item that no
-- earlier batch holds and of which every dependency that the plan has is in an earlier batch, and it
-- holds no other item; no batch is empty; and an item that is in none waits for another that is in
-- none.
pub batch_indices-AreLayers :
    (items : List PlanItem)
    → AreLayers (edges_from items 0 items) (count_items items) [] (batch_indices items)
unfolding batch_indices
batch_indices-AreLayers items =
    let edges = edges_from items 0 items in
    let n = count_items items in
    let in_degree = fill_degrees edges (λ k. 0) in
    let queue = filter (λ k. in_degree k == 0) (from_to 0 n) in
    let counts : Counts edges in_degree [] =
      λ k. omega (arith, fill_degrees-pending edges (λ k. 0) k) in
    rw (fun_ext (λ j. fill_successors-targets edges (λ k. []) j)) (
      run_batches-AreLayers edges n (n + 1) [] queue in_degree
        (λ done k h. pending-edges_from items 0 items done k (omega arith))
        (omega (arith, left-nil n))
        (λ k.
          count-filter (λ m. in_degree m == 0) (from_to 0 n) k
          ∙ ground (arith, count-from_to 0 n k, counts k, waits-pending edges [] k))
        (λ k h. ground arith) counts)
