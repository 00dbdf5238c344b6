-- ===== src/Orchestrate/Graph/Settle.antt =====
-- What the loops that write the in-degrees leave in the map.
use conductr.Prelude.{
  ℕ, List, [], ◌∷◌, ◌++◌, none, some, Bool, true, false, if◌then◌else◌, ◌==◌, ◌≡◌, refl, arith, ◌<◌,
  ltb, filter, length, Bool-cases, inl, inr, foldl, contains, count, All, IsAscending, sym, ◌∙◌,
  append-nil, append_assoc, not-contains_of_above,
}
use conductr.Prelude.Map.{get, insert, keys, keys-append, keys-insert_old, insert_last, get-insert}
use conductr.Orchestrate.Graph.{
  Edges, is_relevant, count_deps, initial_indegree, settle, zero_keys, positive_keys, or_zero,
}

-- The issue has an entry, and that is zero.
abbrev pub is_done : ℕ → List (ℕ × ℕ) → Bool
is_done k m = elim (get k m) [ none ↦ false | some v ↦ v == 0 ]

abbrev pub done_count : ℕ → List (ℕ × ℕ) → ℕ
done_count k m = if is_done k m then 1 else 0

pub get_of_absent {ℓ} :
    {V : Type ℓ} (k : ℕ) (m : List (ℕ × V)) → contains k (keys m) ≡ false → get k m ≡ none
get_of_absent k [] h = refl
get_of_absent k ((j, v) ∷ m) h = ground (arith, get_of_absent k m)

pub contains-of-get {ℓ} :
    {V : Type ℓ} (k : ℕ) (m : List (ℕ × V)) (v : V) → get k m ≡ some v → contains k (keys m) ≡ true
contains-of-get k [] v h = cc
contains-of-get k ((j, w) ∷ m) v h = ground (arith, contains-of-get k m v)

pub get-settle :
    (k : ℕ) (ns : List ℕ) (m : List (ℕ × ℕ))
    → get k (settle ns m) ≡ (if contains k ns then some 0 else get k m)
unfolding settle
get-settle k [] m = refl
get-settle k (n ∷ ns) m = ground (arith, get-settle k ns (insert n 0 m), get-insert k n 0 m)

pub keys-settle :
    (ns : List ℕ) (m : List (ℕ × ℕ))
    → IsAscending (keys m)
    → All (λ n. contains n (keys m) ≡ true) ns
    → keys (settle ns m) ≡ keys m
unfolding settle
keys-settle [] m h c = refl
keys-settle (n ∷ ns) m h c =
    let same = keys-insert_old n 0 m h c.0 in
    keys-settle ns (insert n 0 m) (rw same h) (rw same c.1) ∙ same

pub get_of_contained {ℓ} :
    {V : Type ℓ} (k : ℕ) (m : List (ℕ × V))
    → contains k (keys m) ≡ true
    → (v : V) × (get k m ≡ some v)
get_of_contained k [] h = cc
get_of_contained k ((j, v) ∷ m) h = elim (Bool-cases (j == k)) [
  | inl e ↦ (v, rw e refl)
  | inr e ↦ rw e (get_of_contained k m (ground arith))
]

module _ (edges : Edges) (closed : List ℕ) where
  get-count_deps_absent :
      (k : ℕ) (rest : Edges) (m : List (ℕ × ℕ))
      → contains k (keys rest) ≡ false
      → get k (count_deps edges closed m rest) ≡ get k m
  unfolding count_deps
  get-count_deps_absent k [] m h = refl
  get-count_deps_absent k ((j, ds) ∷ rest) m h =
      let n = length (filter (is_relevant edges closed) ds) in
      ground (arith, get-count_deps_absent k rest (insert j n m), get-insert k j n m)

  -- The second loop writes the entry of each issue of the graph.
  pub get-count_deps :
      (k : ℕ) (rest : Edges) (m : List (ℕ × ℕ)) (deps : List ℕ)
      → IsAscending (keys rest)
      → get k rest ≡ some deps
      → get k (count_deps edges closed m rest)
        ≡ some (length (filter (is_relevant edges closed) deps))
  unfolding count_deps
  get-count_deps k [] m deps h e = cc
  get-count_deps k ((j, ds) ∷ rest) m deps h e =
      let n = length (filter (is_relevant edges closed) ds) in
      ground (
        arith,
        get-count_deps k rest (insert j n m) deps h.1,
        get-count_deps_absent k rest (insert j n m),
        get-insert k j n m,
        not-contains_of_above j (keys rest) h.0,
      )

  keys-count_deps :
      (rest : Edges) (m : List (ℕ × ℕ))
      → IsAscending (keys m)
      → All (λ n. contains n (keys m) ≡ true) (keys rest)
      → keys (count_deps edges closed m rest) ≡ keys m
  unfolding count_deps
  keys-count_deps [] m h c = refl
  keys-count_deps ((j, ds) ∷ rest) m h c =
      let n = length (filter (is_relevant edges closed) ds) in
      let same = keys-insert_old j n m h c.0 in
      keys-count_deps rest (insert j n m) (rw same h) (rw same c.1) ∙ same

All-before : (x : ℕ) (xs : List ℕ) (k : ℕ) (ks : List ℕ) → All (λ y. x < y) (xs ++ k ∷ ks) → x < k
All-before x [] k ks h = h.0
All-before x (y ∷ xs) k ks h = All-before x xs k ks h.1

below_of_ascending :
    (xs : List ℕ) (k : ℕ) (ks : List ℕ) → IsAscending (xs ++ k ∷ ks) → All (λ j. j < k) xs
below_of_ascending [] k ks h = tt
below_of_ascending (x ∷ xs) k ks h = (All-before x xs k ks h.0, below_of_ascending xs k ks h.1)

-- The first loop appends the issues in order.
keys-zeros :
    (ks : List ℕ) (m : List (ℕ × ℕ))
    → IsAscending (keys m ++ ks)
    → keys (foldl (λ m n. insert n 0 m) m ks) ≡ keys m ++ ks
keys-zeros [] m h = sym (append-nil (keys m))
keys-zeros (k ∷ ks) m h =
    let grown = insert_last k 0 m (below_of_ascending (keys m) k ks h) in
    let spelled = keys-append m ((k, 0) ∷ []) in
    let regrouped = append_assoc (keys m) (k ∷ []) ks in
    rw grown
      (keys-zeros ks (m ++ (k, 0) ∷ []) (rw (spelled, regrouped) h) ∙ rw (spelled, regrouped) refl)

pub All-contained :
    (xs ys : List ℕ)
    → ((k : ℕ) → contains k xs ≡ true → contains k ys ≡ true)
    → All (λ n. contains n ys ≡ true) xs
All-contained [] ys h = tt
All-contained (x ∷ xs) ys h = (h x (ground arith), All-contained xs ys (λ k c. h k (ground arith)))

-- The issues of the in-degrees are those of the graph.
pub keys-initial_indegree :
    (edges : Edges) (closed : List ℕ)
    → IsAscending (keys edges)
    → keys (initial_indegree edges closed) ≡ keys edges
unfolding initial_indegree
keys-initial_indegree edges closed h =
    let first = keys-zeros (keys edges) [] h in
    keys-count_deps edges closed edges _ (rw first h)
      (rw first (All-contained (keys edges) (keys edges) (λ k c. c)))
    ∙ first

pub count-zero_keys :
    (k : ℕ) (m : List (ℕ × ℕ)) → IsAscending (keys m) → count k (zero_keys m) ≡ done_count k m
unfolding zero_keys
count-zero_keys k [] h = refl
count-zero_keys k ((j, v) ∷ m) h =
    ground (arith, count-zero_keys k m h.1, get_of_absent j m, not-contains_of_above j (keys m) h.0)

-- The issues that are left have an entry above zero.
pub count-positive_keys :
    (k : ℕ) (m : List (ℕ × ℕ))
    → IsAscending (keys m)
    → count k (positive_keys m) ≡ (if ltb 0 (or_zero (get k m)) then 1 else 0)
unfolding positive_keys
count-positive_keys k [] h = refl
count-positive_keys k ((j, v) ∷ m) h =
    ground
      (arith, count-positive_keys k m h.1, get_of_absent j m, not-contains_of_above j (keys m) h.0)
