-- ===== src/Prelude/Map.antt =====
-- `BTreeMap` and `BTreeSet` over numbers: the entries in ascending order of their keys.
use conductr.Prelude.Tests.{ltb, ◌==◌, if◌then◌else◌}
use conductr.Prelude.Lists.{All}
use conductr.Prelude.Count.{contains, IsAscending, not-contains_of_above}
use Prim.Native.Nat.{ℕ, ◌<◌}
use mathlib.Core.Path.{◌≡◌, refl, ap}
use mathlib.Core.Bool.{Bool, true, false}
use mathlib.Core.Option.{Option, none, some}
use mathlib.Core.List.{List, [], ◌∷◌, ◌++◌}
use native.Mathlib.Omega.{arith}

-- `BTreeSet::insert`.
abbrev pub set_insert : ℕ → List ℕ → List ℕ
set_insert a [] = a ∷ []
set_insert a (x ∷ xs) =
    if x == a then x ∷ xs else if ltb a x then a ∷ x ∷ xs else x ∷ set_insert a xs

pub contains-set_insert :
    (b a : ℕ) (xs : List ℕ)
    → contains b (set_insert a xs) ≡ (if a == b then true else contains b xs)
contains-set_insert b a [] = ground arith
contains-set_insert b a (x ∷ xs) = ground (arith, contains-set_insert b a xs)

above-set_insert :
    (c a : ℕ) (xs : List ℕ) → c < a → All (λ y. c < y) xs → All (λ y. c < y) (set_insert a xs)
above-set_insert c a [] h k = (h, tt)
above-set_insert c a (x ∷ xs) h k = ground (arith, above-set_insert c a xs h k.1)

All-above_trans : (a b : ℕ) (xs : List ℕ) → a < b → All (λ y. b < y) xs → All (λ y. a < y) xs
All-above_trans a b [] h k = tt
All-above_trans a b (x ∷ xs) h k = (omega arith, All-above_trans a b xs h k.1)

pub set_insert-IsAscending : (a : ℕ) (xs : List ℕ) → IsAscending xs → IsAscending (set_insert a xs)
set_insert-IsAscending a [] h = (tt, tt)
set_insert-IsAscending a (x ∷ xs) h =
    ground (arith, set_insert-IsAscending a xs h.1, above-set_insert x a xs, All-above_trans a x xs)

module _ {ℓ} {V : Type ℓ} where
  abbrev pub get : ℕ → List (ℕ × V) → Option V
  get k [] = none
  get k ((j, v) ∷ m) = if j == k then some v else get k m

  abbrev pub contains_key : ℕ → List (ℕ × V) → Bool
  contains_key k [] = false
  contains_key k ((j, v) ∷ m) = if j == k then true else contains_key k m

  abbrev pub keys : List (ℕ × V) → List ℕ
  keys [] = []
  keys ((j, v) ∷ m) = j ∷ keys m

  abbrev pub insert : ℕ → V → List (ℕ × V) → List (ℕ × V)
  insert k v [] = (k, v) ∷ []
  insert k v ((j, w) ∷ m) =
      if j == k then (k, v) ∷ m else if ltb k j then (k, v) ∷ (j, w) ∷ m else (j, w) ∷ insert k v m

  pub get-insert :
      (i k : ℕ) (v : V) (m : List (ℕ × V))
      → get i (insert k v m) ≡ (if k == i then some v else get i m)
  get-insert i k v [] = refl
  get-insert i k v ((j, w) ∷ m) = ground (arith, get-insert i k v m)

  pub contains_key-keys : (k : ℕ) (m : List (ℕ × V)) → contains_key k m ≡ contains k (keys m)
  contains_key-keys k [] = refl
  contains_key-keys k ((j, v) ∷ m) = ground (arith, contains_key-keys k m)

  -- Writing a key that is there leaves the keys.
  pub keys-insert_old :
      (k : ℕ) (v : V) (m : List (ℕ × V))
      → IsAscending (keys m)
      → contains k (keys m) ≡ true
      → keys (insert k v m) ≡ keys m
  keys-insert_old k v [] h c = cc
  keys-insert_old k v ((j, w) ∷ m) h c = ground (
    arith,
    keys-insert_old k v m h.1,
    not-contains_of_above j (keys m) h.0,
    All-above_trans k j (keys m),
    not-contains_of_above k (keys m),
  )

  -- A key above all others goes to the end.
  pub insert_last :
      (k : ℕ) (v : V) (m : List (ℕ × V))
      → All (λ j. j < k) (keys m)
      → insert k v m ≡ m ++ (k, v) ∷ []
  insert_last k v [] h = refl
  insert_last k v ((j, w) ∷ m) h = ground (arith, insert_last k v m h.1)

  pub keys-append : (m n : List (ℕ × V)) → keys (m ++ n) ≡ keys m ++ keys n
  keys-append [] n = refl
  keys-append ((j, v) ∷ m) n = ap (λ l. j ∷ l) (keys-append m n)
