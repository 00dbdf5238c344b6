-- ===== src/Schedule/Duration.antt =====
-- crates/conductr-schedule/src/parser.rs: the errors, and durations such as `1h30m`. A panic, of
-- `unwrap` or of a division, is a failure of its own.
use conductr.Prelude.{
  ℕ, ◌+◌, ◌*◌, ◌%◌, ◌^◌, Text, [], ◌∷◌, ◌++◌, Option, none, some, if◌then◌else◌, ◌==◌, codes,
  is_ascii_digit, is_empty,
}
use conductr.Prelude.Decimal.{parse_u64}
use conductr.Prelude.Result.{Result, ok, err, ◌>>=◌}
use conductr.Schedule.Pattern.{PatternError}

pub data ParseError : Type 0 where
  syntax : (line : ℕ) (msg : Text) → ParseError
  unknown_directive : (line : ℕ) (key : Text) → ParseError
  missing_directive : (name : Text) → ParseError
  validation : PatternError → ParseError

pub data Failure : Type 0 where
  error : ParseError → Failure
  panic : Failure

abbrev pub Parsed : Type 0 → Type 0
Parsed A = Result A Failure

abbrev pub unit_seconds : ℕ → Option ℕ
unit_seconds c =
    if c == b's'
    then some 1
    else if c == b'm'
    then some 60
    else if c == b'h'
    then some 3600
    else if c == b'd'
    then some 86400
    else none

abbrev pub quoted : Text → Text
quoted s = codes "`" ++ (s ++ codes "`")

abbrev pub number_or_panic : Text → Parsed ℕ
number_or_panic digits = elim (parse_u64 digits) [ none ↦ err panic | some n ↦ ok n ]

abbrev unit_or_error : ℕ → ℕ → Parsed ℕ
unit_or_error line c = elim (unit_seconds c) [
  | none ↦ err (error (syntax line (codes "unknown duration unit " ++ quoted (c ∷ []))))
  | some mult ↦ ok mult
]

-- The loop over the characters, from `digits` and `total` on; a `u64` that does not fit wraps.
unfoldable pub duration_from : Text → ℕ → Text → Text → ℕ → Parsed ℕ
duration_from whole line [] digits total =
    if is_empty digits
    then ok total
    else err (
        error (
          syntax line (
            codes "trailing digits "
            ++ (quoted digits ++ (codes " without a unit in " ++ quoted whole)))))
duration_from whole line (c ∷ rest) digits total =
    let later = λ (ds : Text) (t : ℕ). duration_from whole line rest ds t in
    if is_ascii_digit c
    then later (digits ++ (c ∷ [])) total
    else if is_empty digits
    then err (
        error (
          syntax line (
            codes "expected digits before "
            ++ (quoted (c ∷ []) ++ (codes " in " ++ quoted whole)))))
    else number_or_panic digits
      >>= (λ n. unit_or_error line c >>= (λ mult. later [] ((total + n * mult) % 2 ^ 64)))

unfoldable pub parse_duration : Text → ℕ → Parsed ℕ
parse_duration s line = duration_from s line s [] 0
