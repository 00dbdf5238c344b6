-- ===== src/Schedule/PlanPattern/Batches.antt =====
-- The batches of a plan: which items each holds.
use conductr.Prelude.{
  ℕ, ◌+◌, ◌≤◌, List, [], ◌∷◌, false, if◌then◌else◌, contains, count, count-append, ◌≡◌, ◌∙◌, arith,
}
use conductr.Schedule.PlanPattern.{release, run_batch}
use conductr.Schedule.PlanPattern.Edges.{
  pending, targets, pending-done, fell, release-degree, release-count,
}

-- The items done after a batch.
abbrev pub finish : List ℕ → List ℕ → List ℕ
finish [] done = done
finish (j ∷ batch) done = finish batch (j ∷ done)

abbrev pub Fresh : List ℕ → List ℕ → Type 0
Fresh batch done = (k : ℕ) → count k batch + (if contains k done then 1 else 0) ≤ 1

Fresh-tail : (j : ℕ) (batch done : List ℕ) → Fresh (j ∷ batch) done → Fresh batch (j ∷ done)
Fresh-tail j batch done f k = ground (arith, f k, f j)

Fresh-head : (j : ℕ) (batch done : List ℕ) → Fresh (j ∷ batch) done → contains j done ≡ false
Fresh-head j batch done f = ground (arith, f j)

pub pending-finish-le :
    (edges : List (ℕ × ℕ)) (batch done : List ℕ) (k : ℕ)
    → Fresh batch done
    → pending edges (finish batch done) k ≤ pending edges done k
pending-finish-le edges [] done k f = omega arith
pending-finish-le edges (j ∷ batch) done k f = omega (
  arith,
  pending-finish-le edges batch (j ∷ done) k (Fresh-tail j batch done f),
  pending-done edges done j k (Fresh-head j batch done f),
)

-- One batch, in a section over the dependencies.
module _ (edges : List (ℕ × ℕ)) where
  abbrev pub Counts : (ℕ → ℕ) → List ℕ → Type 0
  Counts in_degree done = (k : ℕ) → in_degree k ≡ pending edges done k

  Counts-release :
      (in_degree : ℕ → ℕ) (done : List ℕ) (j : ℕ)
      → contains j done ≡ false
      → Counts in_degree done
      → Counts (release (targets j edges) in_degree).1 (j ∷ done)
  Counts-release in_degree done j h c k =
      release-degree (targets j edges) in_degree k
      ∙ omega (arith, c k, pending-done edges done j k h)

  release-fell :
      (in_degree : ℕ → ℕ) (done : List ℕ) (j k : ℕ)
      → contains j done ≡ false
      → Counts in_degree done
      → count k (release (targets j edges) in_degree).0
        ≡ fell (pending edges done k) (pending edges (j ∷ done) k)
  release-fell in_degree done j k h c =
      release-count (targets j edges) in_degree k
        (λ m. omega (arith, c m, pending-done edges done j m h))
      ∙ ground (arith, c k, pending-done edges done j k h)

  pub run_batch-lem :
      (batch done : List ℕ) (in_degree : ℕ → ℕ)
      → Fresh batch done
      → Counts in_degree done
      → Counts (run_batch (λ j. targets j edges) batch in_degree).1 (finish batch done)
        × ((k : ℕ)
            → count k (run_batch (λ j. targets j edges) batch in_degree).0
              ≡ fell (pending edges done k) (pending edges (finish batch done) k))
  unfolding run_batch
  run_batch-lem [] done in_degree f c = (c, λ k. ground arith)
  run_batch-lem (j ∷ batch) done in_degree f c =
      let h = Fresh-head j batch done f in
      let first = release (targets j edges) in_degree in
      let f' = Fresh-tail j batch done f in
      let later = run_batch-lem batch (j ∷ done) first.1 f' (Counts-release in_degree done j h c) in
      (
        later.0,
        λ k.
            count-append k first.0 (run_batch (λ j. targets j edges) batch first.1).0
            ∙ ground (
              arith,
              later.1 k,
              release-fell in_degree done j k h c,
              pending-finish-le edges batch (j ∷ done) k f',
              pending-done edges done j k h,
            ),
      )
