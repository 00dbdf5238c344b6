-- ===== src/Prelude/Trim.antt =====
-- What is trimmed of a text that ends with a number.
use Prim.Native.Nat.{ℕ}
use mathlib.Core.Path.{◌≡◌, refl, sym, ap, ◌∙◌}
use mathlib.Core.Bool.{Bool, true, false, ◌&&◌}
use mathlib.Core.List.{
  [], ◌∷◌, ◌++◌, append-nil, reverse, reverse-cons, reverse-append, reverse-reverse,
}
use native.Mathlib.Omega.{arith}
use conductr.Prelude.Lists.{is_empty, all}
use conductr.Prelude.Strings.{Text, is_ascii_digit, trim, trim_start}
use conductr.Prelude.Decimal.{show_nat, all-show_nat, is_empty-show_nat}

all-append : (p : ℕ → Bool) (s t : Text) → all p (s ++ t) ≡ (all p s && all p t)
all-append p [] t = refl
all-append p (c ∷ s) t = ground (arith, all-append p s t)

pub all-reverse : (p : ℕ → Bool) (s : Text) → all p (reverse s) ≡ all p s
all-reverse p [] = refl
all-reverse p (c ∷ s) =
    ap (all p) (reverse-cons c s)
    ∙ (all-append p (reverse s) (c ∷ []) ∙ ground (arith, all-reverse p s))

is_empty-append_one : (s : Text) (c : ℕ) → is_empty (s ++ (c ∷ [])) ≡ false
is_empty-append_one [] c = refl
is_empty-append_one (d ∷ s) c = refl

is_empty-reverse : (c : ℕ) (s : Text) → is_empty (reverse (c ∷ s)) ≡ false
is_empty-reverse c s = ap is_empty (reverse-cons c s) ∙ is_empty-append_one (reverse s) c

-- Digits are not trimmed.
trim_start-digits :
    (d t : Text) → is_empty d ≡ false → all is_ascii_digit d ≡ true → trim_start (d ++ t) ≡ d ++ t
trim_start-digits [] t h k = cc
trim_start-digits (c ∷ d) t h k = ground arith

trim_end-digits :
    (s d : Text)
    → is_empty d ≡ false
    → all is_ascii_digit d ≡ true
    → reverse (trim_start (reverse (s ++ d))) ≡ s ++ d
trim_end-digits s [] h k = cc
trim_end-digits s (c ∷ d) h k =
    ap (λ (r : Text). reverse (trim_start r)) (reverse-append s (c ∷ d))
    ∙ (ap reverse (
          trim_start-digits (reverse (c ∷ d)) (reverse s) (is_empty-reverse c d)
            (all-reverse is_ascii_digit (c ∷ d) ∙ k))
        ∙ (ap reverse (sym (reverse-append s (c ∷ d))) ∙ reverse-reverse (s ++ (c ∷ d))))

pub trim-digits :
    (s : Text) (n : ℕ)
    → trim_start (s ++ show_nat n) ≡ s ++ show_nat n
    → trim (s ++ show_nat n) ≡ s ++ show_nat n
trim-digits s n h =
    ap (λ (r : Text). reverse (trim_start (reverse r))) h
    ∙ trim_end-digits s (show_nat n) (is_empty-show_nat n) (all-show_nat n)

pub trim-show_nat : (n : ℕ) → trim (show_nat n) ≡ show_nat n
trim-show_nat n = trim-digits [] n (
    let e = sym (append-nil (show_nat n)) in
    ap trim_start e
    ∙ (trim_start-digits (show_nat n) [] (is_empty-show_nat n) (all-show_nat n)
        ∙ append-nil (show_nat n)))
