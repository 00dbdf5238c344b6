-- ===== src/Prelude/Count.antt =====
-- Occurrences in lists of numbers, sorted lists, and the sort of a `Vec` of numbers.
use Prim.Native.Nat.{ℕ, suc, ◌+◌, ◌-◌, ◌≤◌, ◌<◌}
use mathlib.Core.Path.{◌≡◌, refl}
use mathlib.Core.Bool.{Bool, false, ◌||◌}
use mathlib.Core.List.{List, [], ◌∷◌, ◌++◌}
use native.Mathlib.Omega.{arith}
use conductr.Prelude.Tests.{ltb, leb, ◌==◌, if◌then◌else◌}
use conductr.Prelude.Lists.{length, All}

abbrev pub contains : ℕ → List ℕ → Bool
contains a [] = false
contains a (x ∷ xs) = x == a || contains a xs

abbrev pub count : ℕ → List ℕ → ℕ
count n [] = 0
count n (m ∷ rest) = (if m == n then 1 else 0) + count n rest

pub contains-count : (a : ℕ) (xs : List ℕ) → contains a xs ≡ ltb 0 (count a xs)
contains-count a [] = refl
contains-count a (x ∷ xs) = ground (arith, contains-count a xs)

pub count-append :
    (n : ℕ) (front back : List ℕ) → count n (front ++ back) ≡ count n front + count n back
count-append n [] back = omega arith
count-append n (m ∷ front) back = ground (arith, count-append n front back)

pub contains-append :
    (a : ℕ) (xs ys : List ℕ) → contains a (xs ++ ys) ≡ (contains a xs || contains a ys)
contains-append a [] ys = refl
contains-append a (x ∷ xs) ys = ground (arith, contains-append a xs ys)

-- Strictly ascending: what iterating over a `BTreeSet` or the keys of a `BTreeMap` gives.
abbrev pub IsAscending : List ℕ → Type 0
IsAscending [] = Unit
IsAscending (x ∷ xs) = All (λ y. x < y) xs × IsAscending xs

pub not-contains_of_above : (a : ℕ) (xs : List ℕ) → All (λ y. a < y) xs → contains a xs ≡ false
not-contains_of_above a [] h = refl
not-contains_of_above a (x ∷ xs) h = ground (arith, not-contains_of_above a xs h.1)

pub count_of_above : (a : ℕ) (xs : List ℕ) → All (λ y. a < y) xs → count a xs ≡ 0
count_of_above a [] h = refl
count_of_above a (x ∷ xs) h = ground (arith, count_of_above a xs h.1)

-- `Vec::sort` on numbers: equal numbers cannot be told apart, so any sort gives this list.
abbrev pub insert_sorted : ℕ → List ℕ → List ℕ
insert_sorted a [] = a ∷ []
insert_sorted a (x ∷ xs) = if leb a x then a ∷ x ∷ xs else x ∷ insert_sorted a xs

abbrev pub sort : List ℕ → List ℕ
sort [] = []
sort (x ∷ xs) = insert_sorted x (sort xs)

count-insert_sorted :
    (a x : ℕ) (xs : List ℕ) → count a (insert_sorted x xs) ≡ (if x == a then 1 else 0) + count a xs
count-insert_sorted a x [] = refl
count-insert_sorted a x (y ∷ ys) = ground (arith, count-insert_sorted a x ys)

pub count-sort : (a : ℕ) (xs : List ℕ) → count a (sort xs) ≡ count a xs
count-sort a [] = refl
count-sort a (x ∷ xs) = ground (arith, count-insert_sorted a x (sort xs), count-sort a xs)

length-insert_sorted : (x : ℕ) (xs : List ℕ) → length (insert_sorted x xs) ≡ suc (length xs)
length-insert_sorted x [] = refl
length-insert_sorted x (y ∷ ys) = ground (arith, length-insert_sorted x ys)

pub length-sort : (xs : List ℕ) → length (sort xs) ≡ length xs
length-sort [] = refl
length-sort (x ∷ xs) = ground (arith, length-insert_sorted x (sort xs), length-sort xs)

-- Takes the first occurrence out.
erase : ℕ → List ℕ → List ℕ
erase a [] = []
erase a (x ∷ xs) = if x == a then xs else x ∷ erase a xs

count-erase :
    (k a : ℕ) (xs : List ℕ) → count k (erase a xs) ≡ count k xs - (if a == k then 1 else 0)
unfolding erase
count-erase k a [] = ground arith
count-erase k a (x ∷ xs) = ground (arith, count-erase k a xs)

length-erase : (a : ℕ) (xs : List ℕ) → 0 < count a xs → suc (length (erase a xs)) ≡ length xs
unfolding erase
length-erase a [] h = omega arith
length-erase a (x ∷ xs) h = ground (arith, length-erase a xs)

abbrev pub Below : List ℕ → List ℕ → Type 0
Below xs ys = (k : ℕ) → count k xs ≤ count k ys

Below-erase : (x : ℕ) (xs ys : List ℕ) → Below (x ∷ xs) ys → Below xs (erase x ys)
Below-erase x xs ys h k = ground (arith, h k, count-erase k x ys)

-- A list that has no occurrence more than another is no longer.
pub length-le_of_count : (xs ys : List ℕ) → Below xs ys → length xs ≤ length ys
length-le_of_count [] ys h = omega arith
length-le_of_count (x ∷ xs) ys h =
    let rest = length-le_of_count xs (erase x ys) (Below-erase x xs ys h) in
    ground (arith, h x, length-erase x ys)

-- If it is as long, it has the same occurrences.
pub count-eq_of_length :
    (xs ys : List ℕ) → Below xs ys → length xs ≡ length ys → (k : ℕ) → count k xs ≡ count k ys
count-eq_of_length [] [] h e k = refl
count-eq_of_length [] (y ∷ ys) h e k = absurd (omega arith)
count-eq_of_length (x ∷ xs) ys h e k =
    let present : 0 < count x ys = ground (arith, h x) in
    let shorter : length xs ≡ length (erase x ys) = omega (arith, length-erase x ys present) in
    let rest = count-eq_of_length xs (erase x ys) (Below-erase x xs ys h) shorter k in
    ground (arith, h k, count-erase k x ys)

-- A number of an ascending list occurs once.
pub count_of_ascending :
    (a : ℕ) (xs : List ℕ) → IsAscending xs → count a xs ≡ (if contains a xs then 1 else 0)
count_of_ascending a [] h = refl
count_of_ascending a (x ∷ xs) h =
    ground (arith, count_of_ascending a xs h.1, not-contains_of_above x xs h.0)
