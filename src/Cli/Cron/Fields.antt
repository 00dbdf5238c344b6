-- ===== src/Cli/Cron/Fields.antt =====
-- The numbers that a field of a cron expression stands for.
use conductr.Prelude.{
  ℕ, zero, suc, ◌+◌, ◌-◌, ◌%◌, ◌≤◌, Text, List, [], ◌∷◌, Option, none, some, Bool, false, ◌&&◌,
  ◌==◌, leb, ltb, any, contains, contains-append, ◌≡◌, arith, Bool-cases, Option-cases, inl, inr,
  codes, strip_prefix, text_eq, leb→le,
}
use native.Mathlib.Nat.{mod-eq-sub-mod, mod-eq_of_lt}
use conductr.Prelude.Decimal.{parse_u32}
use conductr.Prelude.Result.{ok, Result-cases}
use conductr.Prelude.Split.{split, split_once}
use conductr.Cli.Cron.{
  range, range_inclusive, step_from, expand_part, expand_parts, expand_cron_field,
}

pub contains-range :
    (n start count : ℕ) → contains n (range start count) ≡ (leb start n && ltb n (start + count))
contains-range n start zero = ground arith
contains-range n start (suc count) = ground (arith, contains-range n (start + 1) count)

divides_cases :
    (k m : ℕ) → 1 ≤ m → ((m % suc k) == 0) ≡ (leb (suc k) m && ((m - suc k) % suc k) == 0)
divides_cases k m h = elim (Bool-cases (leb (suc k) m)) [
  | inl e ↦ ground (arith, mod-eq-sub-mod {n = m} {m = suc k} (leb→le (suc k) m e))
  | inr e ↦ ground (arith, mod-eq_of_lt {n = m} {m = suc k} (ground arith))
]

contains-step_from :
    (n k skip start count : ℕ)
    → contains n (step_from k skip (range start count))
      ≡ (leb (start + skip) n && ltb n (start + count) && ((n - (start + skip)) % suc k) == 0)
contains-step_from n k skip start zero = ground arith
contains-step_from n k zero start (suc count) =
    ground (arith, contains-step_from n k k (start + 1) count, divides_cases k (n - start))
contains-step_from n k (suc skip) start (suc count) =
    ground (arith, contains-step_from n k skip (start + 1) count)

-- Whether one part between commas stands for `n`: `*/k` for the multiples of `k` from `min` on, `a-b`
-- for a range, and a number for itself.
abbrev is_multiple : ℕ → ℕ → ℕ → Option ℕ → Bool
is_multiple min max n none = false
is_multiple min max n (some k) = leb min n && leb n max && ((n - min) % k) == 0

abbrev is_between : ℕ → Option ℕ → Option ℕ → Bool
is_between n (some a) (some b) = leb a n && leb n b
is_between n a b = false

abbrev is_exactly : ℕ → Option ℕ → Bool
is_exactly n none = false
is_exactly n (some v) = v == n

abbrev pub part_has : ℕ → ℕ → ℕ → Text → Bool
part_has min max n part = elim (strip_prefix (codes "*/") part) [
  | some step_s ↦ is_multiple min max n (parse_u32 step_s)
  | none ↦ elim (split_once b'-' part) [
    | some (a, b) ↦ is_between n (parse_u32 a) (parse_u32 b)
    | none ↦ is_exactly n (parse_u32 part)
  ]
]

contains-range_inclusive : (n a b : ℕ) → contains n (range_inclusive a b) ≡ (leb a n && leb n b)
contains-range_inclusive n a b = ground (arith, contains-range n a (b + 1 - a))

contains-stepped :
    (n k min max : ℕ)
    → contains n (step_from k 0 (range_inclusive min max))
      ≡ (leb min n && leb n max && ((n - min) % suc k) == 0)
contains-stepped n k min max = ground (arith, contains-step_from n k 0 min (max + 1 - min))

expand_part-has :
    (min max n : ℕ) (part : Text) (vs : List ℕ)
    → expand_part min max part ≡ ok vs
    → contains n vs ≡ part_has min max n part
unfolding expand_part
expand_part-has min max n part vs h = elim (Option-cases (strip_prefix (codes "*/") part)) [
  | inl plain ↦ elim (Option-cases (split_once b'-' part)) [
    | inl single ↦ elim (Option-cases (parse_u32 part)) [
      | inl bad ↦ ground arith
      | inr (v, read) ↦ ground arith
    ]
    | inr ((a, b), cut) ↦ elim (Option-cases (parse_u32 a)) [
      | inl bad ↦ ground arith
      | inr (start, read_a) ↦ elim (Option-cases (parse_u32 b)) [
        | inl bad ↦ ground arith
        | inr (end, read_b) ↦ ground (arith, contains-range_inclusive n start end)
      ]
    ]
  ]
  | inr (step_s, e) ↦ elim (Option-cases (parse_u32 step_s)) [
    | inl bad ↦ ground arith
    | inr (zero, read) ↦ ground arith
    | inr (suc k, read) ↦ ground (arith, contains-stepped n k min max)
  ]
]

expand_parts-has :
    (min max n : ℕ) (parts : List Text) (vs : List ℕ)
    → expand_parts min max parts ≡ ok vs
    → contains n vs ≡ any (part_has min max n) parts
unfolding expand_parts
expand_parts-has min max n [] vs h = ground arith
expand_parts-has min max n (part ∷ rest) vs h = elim (Result-cases (expand_part min max part)) [
  | inl (first, e) ↦ elim (Result-cases (expand_parts min max rest)) [
    | inl (others, f) ↦ ground (
      arith,
      expand_part-has min max n part first e,
      expand_parts-has min max n rest others f,
      contains-append n first others,
    )
    | inr (bad, f) ↦ ground arith
  ]
  | inr (bad, e) ↦ ground arith
]

-- A field that is accepted and is not `*` stands for the numbers that one of its parts, between
-- commas, stands for: `*/k` for the numbers from `min` to `max` whose distance from `min` is a
-- multiple of `k`, `a-b` for those from `a` to `b`, and a number for itself.
pub expand_cron_field-contains :
    (s : Text) (min max n : ℕ) (vs : List ℕ)
    → text_eq s (codes "*") ≡ false
    → expand_cron_field s min max ≡ ok vs
    → contains n vs ≡ any (part_has min max n) (split b',' s)
unfolding expand_cron_field
expand_cron_field-contains s min max n vs star h =
    ground (arith, expand_parts-has min max n (split b',' s) vs)
