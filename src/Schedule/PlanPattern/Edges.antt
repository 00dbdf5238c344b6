-- ===== src/Schedule/PlanPattern/Edges.antt =====
-- The vectors of the sort, as counts over a plan's dependencies.
use conductr.Prelude.{
  ℕ, ◌+◌, ◌-◌, ◌≤◌, List, [], ◌∷◌, ◌++◌, Bool, false, not, ◌&&◌, if◌then◌else◌, ◌==◌, leb, any,
  contains, count, append-nil, append_assoc, ◌≡◌, refl, sym, ◌∙◌, arith,
}
use conductr.Schedule.PlanPattern.{bump, drop_one, push, fill_degrees, fill_successors, release}

-- Whether item `k` waits for an item that is not done.
abbrev pub waits : List (ℕ × ℕ) → List ℕ → ℕ → Bool
waits edges done k = any (λ (e : ℕ × ℕ). e.0 == k && not (contains e.1 done)) edges

-- How many of its dependencies are not done.
abbrev pub pending : List (ℕ × ℕ) → List ℕ → ℕ → ℕ
pending [] done k = 0
pending ((i, j) ∷ rest) done k =
    (if i == k && not (contains j done) then 1 else 0) + pending rest done k

pub waits-pending :
    (edges : List (ℕ × ℕ)) (done : List ℕ) (k : ℕ)
    → (pending edges done k == 0) ≡ not (waits edges done k)
waits-pending [] done k = refl
waits-pending ((i, j) ∷ rest) done k = ground (arith, waits-pending rest done k)

abbrev pub targets : ℕ → List (ℕ × ℕ) → List ℕ
targets j [] = []
targets j ((i, s) ∷ rest) = if s == j then i ∷ targets j rest else targets j rest

pub fill_degrees-pending :
    (edges : List (ℕ × ℕ)) (in_degree : ℕ → ℕ) (k : ℕ)
    → fill_degrees edges in_degree k ≡ in_degree k + pending edges [] k
fill_degrees-pending [] in_degree k = omega arith
fill_degrees-pending ((i, j) ∷ rest) in_degree k =
    fill_degrees-pending rest (bump i in_degree) k ∙ ground arith

pub fill_successors-targets :
    (edges : List (ℕ × ℕ)) (successors : ℕ → List ℕ) (j : ℕ)
    → fill_successors edges successors j ≡ successors j ++ targets j edges
fill_successors-targets [] successors j = sym (append-nil (successors j))
fill_successors-targets ((i, s) ∷ rest) successors j =
    fill_successors-targets rest (push s i successors) j
    ∙ ground (arith, append_assoc (successors j) (i ∷ []) (targets j rest))

-- What one more item done takes away.
pub pending-done :
    (edges : List (ℕ × ℕ)) (done : List ℕ) (j k : ℕ)
    → contains j done ≡ false
    → pending edges done k ≡ pending edges (j ∷ done) k + count k (targets j edges)
pending-done [] done j k h = refl
pending-done ((i, s) ∷ rest) done j k h = ground (arith, pending-done rest done j k h)

-- What the loop over the successors of an item pushes: each item once whose degree falls to 0.
abbrev pub fell : ℕ → ℕ → ℕ
fell before after = if leb 1 before && after == 0 then 1 else 0

pub release-degree :
    (ts : List ℕ) (in_degree : ℕ → ℕ) (k : ℕ)
    → (release ts in_degree).1 k ≡ in_degree k - count k ts
unfolding release
release-degree [] in_degree k = omega arith
release-degree (i ∷ rest) in_degree k = release-degree rest (drop_one i in_degree) k ∙ ground arith

pub release-count :
    (ts : List ℕ) (in_degree : ℕ → ℕ) (k : ℕ)
    → ((m : ℕ) → count m ts ≤ in_degree m)
    → count k (release ts in_degree).0 ≡ fell (in_degree k) (in_degree k - count k ts)
unfolding release
release-count [] in_degree k h = ground arith
release-count (i ∷ rest) in_degree k h =
    let ih = release-count rest (drop_one i in_degree) k (λ m. ground (arith, h m)) in
    ground (arith, ih, h k, h i)
