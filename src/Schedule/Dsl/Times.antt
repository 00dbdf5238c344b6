-- ===== src/Schedule/Dsl/Times.antt =====
-- The duration that is read back from a pattern's text.
use conductr.Prelude.{
  ℕ, ◌+◌, ◌*◌, ◌/◌, ◌%◌, ◌^◌, ◌<◌, Text, [], ◌∷◌, ◌++◌, append_assoc, append-nil, some, true, false,
  ◌==◌, all, is_ascii_digit, ◌≡◌, refl, sym, ap, ◌∙◌, arith, Bool-cases, inl, inr,
}
use conductr.Prelude.Decimal.{show_nat, parse_u64-show_nat, all-show_nat, is_empty-show_nat}
use conductr.Prelude.Result.{ok}
use conductr.Schedule.Duration.{duration_from, parse_duration, unit_seconds}
use conductr.Schedule.Dsl.{duration_text}

duration_from-digits :
    (whole : Text) (line : ℕ) (d rest digits : Text) (total : ℕ)
    → all is_ascii_digit d ≡ true
    → duration_from whole line (d ++ rest) digits total
      ≡ duration_from whole line rest (digits ++ d) total
unfolding duration_from
duration_from-digits whole line [] rest digits total h =
    ap (λ (ds : Text). duration_from whole line rest ds total) (sym (append-nil digits))
duration_from-digits whole line (c ∷ d) rest digits total h = ground (
  arith,
  duration_from-digits whole line d rest (digits ++ (c ∷ [])) total,
  append_assoc digits (c ∷ []) d,
)

-- A number and its unit.
duration_from-unit :
    (whole : Text) (line n : ℕ) (unit mult : ℕ) (rest : Text) (total : ℕ)
    → n < 2 ^ 64
    → is_ascii_digit unit ≡ false
    → unit_seconds unit ≡ some mult
    → duration_from whole line (show_nat n ++ (unit ∷ rest)) [] total
      ≡ duration_from whole line rest [] ((total + n * mult) % 2 ^ 64)
unfolding duration_from
duration_from-unit whole line n unit mult rest total b u e =
    duration_from-digits whole line (show_nat n) (unit ∷ rest) [] total (all-show_nat n)
    ∙ ground (arith, u, e, is_empty-show_nat n, parse_u64-show_nat n b)

duration_from-end :
    (whole : Text) (line total secs : ℕ)
    → total ≡ secs
    → duration_from whole line [] [] total ≡ ok secs
unfolding duration_from
duration_from-end whole line total secs e = ap ok e

duration_from-duration_text :
    (whole : Text) (line secs : ℕ)
    → secs < 2 ^ 64
    → duration_from whole line (duration_text secs) [] 0 ≡ ok (secs / 60 * 60)
unfolding duration_text
duration_from-duration_text whole line secs b =
    let h = secs / 3600 in
    let m = secs % 3600 / 60 in
    elim (Bool-cases (m == 0)) [
      | inl e ↦ rw e (
          duration_from-unit whole line h b'h' 3600 [] 0 (omega arith) refl refl
          ∙ duration_from-end whole line ((0 + h * 3600) % 2 ^ 64) (secs / 60 * 60)
              (ground (arith, e)))
      | inr e ↦ rw e (elim (Bool-cases (h == 0)) [
        | inl f ↦ rw f (
            duration_from-unit whole line m b'm' 60 [] 0 (omega arith) refl refl
            ∙ duration_from-end whole line ((0 + m * 60) % 2 ^ 64) (secs / 60 * 60)
                (ground (arith, f)))
        | inr f ↦ rw f (
            duration_from-unit whole line h b'h' 3600 (show_nat m ++ (b'm' ∷ [])) 0 (omega arith)
              refl refl
            ∙ (duration_from-unit whole line m b'm' 60 [] ((0 + h * 3600) % 2 ^ 64) (omega arith)
                  refl refl
                ∙ duration_from-end whole line (((0 + h * 3600) % 2 ^ 64 + m * 60) % 2 ^ 64)
                    (secs / 60 * 60) (omega arith)))
      ])
    ]

-- The duration of a bar that a pattern's text gives is read back without its seconds.
pub parse_duration-duration_text :
    (secs line : ℕ) → secs < 2 ^ 64 → parse_duration (duration_text secs) line ≡ ok (secs / 60 * 60)
unfolding parse_duration duration_text
parse_duration-duration_text secs line b =
    duration_from-duration_text (duration_text secs) line secs b
