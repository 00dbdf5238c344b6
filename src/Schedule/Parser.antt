-- ===== src/Schedule/Parser.antt =====
-- crates/conductr-schedule/src/parser.rs: the text form of patterns.
pub mod Fuel
use conductr.Prelude.{
  ℕ, zero, suc, ◌+◌, ◌-◌, ◌*◌, ◌/◌, ◌%◌, ◌^◌, Text, List, [], ◌∷◌, ◌++◌, Option, none, some, Bool,
  true, false, not, ◌&&◌, ◌||◌, if◌then◌else◌, ◌==◌, leb, codes, trim, starts_with, is_ascii_digit,
  is_whitespace, is_empty, text_eq, length, map, head?,
}
use mathlib.Core.List.{reverse}
use conductr.Prelude.Decimal.{parse_u64}
use conductr.Prelude.Result.{Result, ok, err, ◌>>=◌, ◌>>◌}
use conductr.Prelude.Split.{
  split_once, split_once_by, lines, trim_start_matches, trim_end_matches, ends_with,
}
use conductr.Schedule.Duration.{
  ParseError, syntax, unknown_directive, validation, Failure, error, panic, Parsed, quoted,
  parse_duration,
}
use conductr.Schedule.Notation.{NoteValue, quarter, in_64ths, from_letter, TimeSignature, Tempo}
use conductr.Schedule.Pattern.{
  Beat, tag, subdivided, Beats, no_beats, then_beat, Bar, Pattern, PatternError,
  bar_length_mismatch, sum_from, validate_beats, validate,
}

-- `map_err(ParseError::Validation)`.
abbrev pub or_validation : Result (Unit {0}) PatternError → Parsed (Unit {0})
or_validation (ok done) = ok done
or_validation (err e) = err (error (validation e))

unfoldable pub strip_comment : Text → Text
strip_comment s = elim (split_once b'#' s) [ none ↦ s | some (a, rest) ↦ a ]

abbrev pub cons_first : ℕ → List Text → List Text
cons_first c [] = (c ∷ []) ∷ []
cons_first c (s ∷ rest) = (c ∷ s) ∷ rest

-- The brackets that are open, an `i32` that may be negative, as how many more are opened than closed
-- and how many more are closed than opened.
pub record Depth : Type 0 where
  pub opened : ℕ
  pub closed : ℕ

abbrev pub open_one : Depth → Depth
open_one d =
    if d.closed == 0 then record d { opened = d.opened + 1 } else record d { closed = d.closed - 1 }

abbrev pub close_one : Depth → Depth
close_one d =
    if d.opened == 0 then record d { closed = d.closed + 1 } else record d { opened = d.opened - 1 }

abbrev pub is_top : Depth → Bool
is_top d = d.opened == 0 && d.closed == 0

abbrev pub deeper : ℕ → Depth → Depth
deeper c d = if c == b'[' then open_one d else if c == b']' then close_one d else d

abbrev pub splits_at : ℕ → ℕ → Depth → Bool
splits_at sep c d = not (c == b'[') && not (c == b']') && c == sep && is_top d

unfoldable pub split_from : ℕ → Depth → Text → List Text
split_from sep d [] = [] ∷ []
split_from sep d (c ∷ s) =
    let rest = split_from sep (deeper c d) s in
    if splits_at sep c d then [] ∷ rest else cons_first c rest

unfoldable pub split_top_level : Text → ℕ → List Text
split_top_level src sep = split_from sep (record { opened = 0; closed = 0 }) src

abbrev pub is_tag_start : Text → Bool
is_tag_start [] = false
is_tag_start (c ∷ s) = (leb b'A' c && leb c b'Z') || (leb b'a' c && leb c b'z') || c == b'_'

-- Without the last character.
abbrev pub but_last : Text → Text
but_last [] = []
but_last (c ∷ []) = []
but_last (c ∷ d ∷ s) = c ∷ but_last (d ∷ s)

-- The letter of the value and the text of the subdivision, of what stands behind the colon.
abbrev pub value_and_children : Text → ℕ → Text → Parsed (Text × Option Text)
value_and_children src line rest = elim (split_once b'[' rest) [
  | none ↦ ok (rest, none)
  | some (value, behind) ↦
      if ends_with (codes "]") rest
      then ok (trim value, some (but_last behind))
      else err (error (syntax line (codes "unmatched `[` in beat " ++ quoted src)))
]

-- A text of one byte.
abbrev pub note_value : ℕ → Text → Parsed NoteValue
note_value line letter = elim letter [
  | c ∷ [] ↦
      if leb c 127
      then elim (from_letter c) [
        | some value ↦ ok value
        | none ↦ err (error (syntax line (codes "unknown note value " ++ quoted (c ∷ []))))
      ]
      else err
          (error (syntax line (codes "expected single-letter note value, got " ++ quoted (c ∷ []))))
  | other ↦
      err (error (syntax line (codes "expected single-letter note value, got " ++ quoted other)))
]

-- `map(...).collect::<Result<Vec<_>, _>>()?`.
abbrev pub collect : (Text → Parsed Beat) → List Text → Parsed Beats
collect parse_one [] = ok no_beats
collect parse_one (s ∷ rest) =
    parse_one s >>= (λ b. collect parse_one rest >>= (λ bs. ok (then_beat b bs)))

abbrev pub content : (Text → Parsed Beat) → Text → NoteValue → Option Text → Parsed Beat
content parse_one t value none = ok (tag value t)
content parse_one t value (some children) =
    collect (λ s. parse_one (trim s)) (split_top_level children b',')
    >>= (λ beats. ok (subdivided value beats))

-- On fuel: the text of a child is shorter than that of its parent.
unfoldable pub parse_beat_from : ℕ → ℕ → Text → Parsed Beat
parse_beat_from zero line src = err panic
parse_beat_from (suc fuel) line src = elim (split_once b':' src) [
  | none ↦ err (error (syntax line (codes "beat " ++ (quoted src ++ codes " missing `:value`"))))
  | some (name, behind) ↦
      if is_tag_start (trim name)
      then value_and_children src line (trim behind) >>= (λ (parts : Text × Option Text).
        note_value line parts.0
        >>= (λ value. content (parse_beat_from fuel line) (trim name) value parts.1))
      else err (error (syntax line (codes "invalid tag " ++ quoted (trim name))))
]

unfoldable pub parse_beat : Text → ℕ → Parsed Beat
parse_beat src line = parse_beat_from (length src + 1) line src

abbrev pub nonblank : List Text → List Text
nonblank [] = []
nonblank (s ∷ rest) = if is_empty (trim s) then nonblank rest else trim s ∷ nonblank rest

unfoldable pub parse_bar_beats : Text → ℕ → Parsed Beats
parse_bar_beats line line_no =
    let inner = trim_end_matches b'|' (trim_start_matches b'|' line) in
    collect (λ s. parse_beat s line_no) (nonblank (split_top_level inner b'|'))
    >>= (λ beats. or_validation (validate_beats beats) >>= (λ done. ok beats))

abbrev directive : ℕ → Text → Text → ℕ → Parsed ℕ
directive line_no key rest secs =
    if text_eq key (codes "bar_duration")
    then parse_duration (trim rest) line_no
    else err (error (unknown_directive line_no key))

-- The loop over the lines, from the line number and the bar's duration on: the duration, and the bars
-- of the lines that are left.
unfoldable pub parse_bars : List Text → ℕ → ℕ → Parsed (ℕ × List Beats)
parse_bars [] line_no secs = ok (secs, [])
parse_bars (raw ∷ rest) line_no secs =
    let line = trim (strip_comment raw) in
    let later = parse_bars rest (line_no + 1) in
    if is_empty line
    then later secs
    else if starts_with (codes "|") line
    then parse_bar_beats line line_no
      >>= (λ beats. later secs >>= (λ (out : ℕ × List Beats). ok (out.0, beats ∷ out.1)))
    else elim (split_once_by is_whitespace line) [
      | none ↦ err (error (syntax line_no (codes "expected `key value`")))
      | some (key, value) ↦ directive line_no key value secs >>= later
    ]

-- The loop over the bars, from index `j` on.
unfoldable pub check_lengths : ℕ → ℕ → List Beats → Parsed (Unit {0})
check_lengths first j [] = ok tt
check_lengths first j (beats ∷ rest) =
    let later = check_lengths first (j + 1) rest in
    if sum_from 0 beats == first
    then later
    else err (error (validation (bar_length_mismatch j first (sum_from 0 beats))))

abbrev first_length : List Beats → ℕ
first_length [] = 64
first_length (beats ∷ rest) = sum_from 0 beats

-- `Tempo::from_bar_secs`; a division by 0 panics, a product that does not fit wraps.
unfoldable pub from_bar_secs : ℕ → ℕ → Parsed Tempo
from_bar_secs bar_secs bar_in_64ths =
    if bar_in_64ths == 0
    then err panic
    else ok (record { quarter_seconds = bar_secs * 16 % 2 ^ 64 / bar_in_64ths })

abbrev pattern_with : ℕ → Tempo → List Beats → Pattern
pattern_with first tempo all_beats =
    let ts : TimeSignature = record { beats_per_bar = first / 16; beat_unit = quarter } in
    record {
      time_signature = ts;
      tempo = tempo;
      bars = map (λ (beats : Beats). record { time_signature = ts; beats = beats }) all_beats;
    }

unfoldable pub parse : Text → Parsed Pattern
parse src = parse_bars (lines src) 1 (4 * 3600) >>= (λ (out : ℕ × List Beats).
    check_lengths (first_length out.1) 0 out.1 >>= (λ done.
      from_bar_secs out.0 (first_length out.1) >>= (λ tempo.
        let pattern = pattern_with (first_length out.1) tempo out.1 in
        or_validation (validate pattern) >>= (λ valid. ok pattern))))
