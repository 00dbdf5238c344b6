-- ===== src/Prelude/Decimal.antt =====
-- Numbers as text: `format!("{n}")` and `str::parse::<u64>()`.
use Prim.Native.Nat.{ℕ, zero, suc, ◌+◌, ◌-◌, ◌*◌, ◌/◌, ◌%◌, ◌^◌, ◌<◌}
use mathlib.Core.Path.{◌≡◌, refl, ◌∙◌, subst, ap}
use mathlib.Core.Bool.{true, false}
use mathlib.Core.Logic.{inl, inr}
use mathlib.Core.Option.{Option, none, some}
use mathlib.Core.List.{[], ◌∷◌}
use native.Mathlib.Omega.{arith}
use conductr.Prelude.Tests.{ltb, ◌==◌, if◌then◌else◌, Bool-cases, lt→ltb}
use conductr.Prelude.Strings.{Text, is_ascii_digit}
use conductr.Prelude.Lists.{all, is_empty}

-- The digits of `n` before `acc`. Fuel above `n` is more than the number of its digits.
digits : ℕ → ℕ → Text → Text
digits zero n acc = acc
digits (suc fuel) n acc =
    let rest = digits fuel (n / 10) ((b'0' + n % 10) ∷ acc) in
    if ltb n 10 then (b'0' + n) ∷ acc else rest

unfoldable pub show_nat : ℕ → Text
unfolding digits
show_nat n = digits (suc n) n []

-- The value of the digits read so far is `acc`.
parse_digits : ℕ → Text → Option ℕ
parse_digits acc [] = some acc
parse_digits acc (c ∷ s) = if is_ascii_digit c then parse_digits (acc * 10 + (c - b'0')) s else none

parse_unsigned : Text → Option ℕ
unfolding parse_digits
parse_unsigned [] = none
parse_unsigned (c ∷ s) = parse_digits 0 (c ∷ s)

abbrev in_u64 : Option ℕ → Option ℕ
in_u64 none = none
in_u64 (some n) = if ltb n (2 ^ 64) then some n else none

-- A leading `+` is read over; no digits, another character or a value of 2^64 or more is an error.
unfoldable pub parse_u64 : Text → Option ℕ
unfolding parse_unsigned
parse_u64 [] = none
parse_u64 (c ∷ s) = in_u64 (if c == b'+' then parse_unsigned s else parse_unsigned (c ∷ s))

abbrev in_u32 : Option ℕ → Option ℕ
in_u32 none = none
in_u32 (some n) = if ltb n (2 ^ 32) then some n else none

-- `parse::<u32>()`, which takes the same texts, up to a lower bound.
unfoldable pub parse_u32 : Text → Option ℕ
parse_u32 s = in_u32 (parse_u64 s)

parse_last_digit :
    (n : ℕ) (acc : Text) → parse_digits (n / 10) ((b'0' + n % 10) ∷ acc) ≡ parse_digits n acc
unfolding parse_digits
parse_last_digit n acc =
    let value : n / 10 * 10 + (b'0' + n % 10 - b'0') ≡ n = omega arith in
    let digit : is_ascii_digit (b'0' + n % 10) ≡ true = ground arith in rw (digit, value) refl

parse_digits-digits :
    (fuel n : ℕ) (acc : Text) → n < fuel → parse_digits 0 (digits fuel n acc) ≡ parse_digits n acc
unfolding parse_digits digits
parse_digits-digits zero n acc h = absurd (omega arith)
parse_digits-digits (suc fuel) n acc h = elim (Bool-cases (ltb n 10)) [
  | inl e ↦
      let digit : is_ascii_digit (b'0' + n) ≡ true = ground arith in
      let value : 0 * 10 + (b'0' + n - b'0') ≡ n = omega arith in rw (e, digit, value) refl
  | inr e ↦
      let small : n / 10 < fuel = ground arith in
      rw e
        (parse_digits-digits fuel (n / 10) ((b'0' + n % 10) ∷ acc) small ∙ parse_last_digit n acc)
]

-- A printed number begins with a digit.
digits-head :
    (fuel n : ℕ) (acc : Text)
    → n < fuel
    → (c : ℕ) × (s : Text) × (digits fuel n acc ≡ c ∷ s) × (is_ascii_digit c ≡ true)
unfolding digits
digits-head zero n acc h = absurd (omega arith)
digits-head (suc fuel) n acc h = elim (Bool-cases (ltb n 10)) [
  | inl e ↦ (b'0' + n, acc, rw e refl, ground arith)
  | inr e ↦
      let (c, s, same, digit) = digits-head fuel (n / 10) ((b'0' + n % 10) ∷ acc) (ground arith) in
      (c, s, rw e same, digit)
]

parse_u64-cons :
    (c : ℕ) (s : Text)
    → is_ascii_digit c ≡ true
    → parse_u64 (c ∷ s) ≡ in_u64 (parse_digits 0 (c ∷ s))
unfolding parse_u64
parse_u64-cons c s h = ground arith

-- A number below 2^64 is read back from its decimal form.
pub parse_u64-show_nat : (n : ℕ) → n < 2 ^ 64 → parse_u64 (show_nat n) ≡ some n
unfolding show_nat parse_digits
parse_u64-show_nat n h =
    let (c, s, same, digit) = digits-head (suc n) n [] (omega arith) in
    let read : parse_digits 0 (c ∷ s) ≡ some n =
      subst (λ t. parse_digits 0 t ≡ some n) same
        (parse_digits-digits (suc n) n [] (omega arith)) in
    rw same (parse_u64-cons c s digit ∙ rw (read, lt→ltb n (2 ^ 64) h) refl)

all-digits :
    (fuel n : ℕ) (acc : Text)
    → all is_ascii_digit acc ≡ true
    → all is_ascii_digit (digits fuel n acc) ≡ true
unfolding digits
all-digits zero n acc h = h
all-digits (suc fuel) n acc h = elim (Bool-cases (ltb n 10)) [
  | inl e ↦ ground arith
  | inr e ↦ ground (arith, all-digits fuel (n / 10) ((b'0' + n % 10) ∷ acc))
]

-- The decimal form has a digit, and nothing but digits.
pub all-show_nat : (n : ℕ) → all is_ascii_digit (show_nat n) ≡ true
unfolding show_nat
all-show_nat n = all-digits (suc n) n [] refl

pub is_empty-show_nat : (n : ℕ) → is_empty (show_nat n) ≡ false
unfolding show_nat
is_empty-show_nat n =
    let (c, s, same, digit) = digits-head (suc n) n [] (omega arith) in ap is_empty same
