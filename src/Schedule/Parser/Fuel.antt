-- ===== src/Schedule/Parser/Fuel.antt =====
-- The fuel that a beat's text is parsed with.
use conductr.Prelude.{
  ℕ, zero, suc, ◌+◌, ◌≤◌, ◌<◌, Text, List, [], ◌∷◌, Option, none, some, Bool, true, false, ◌==◌,
  codes, trim, trim_start, is_whitespace, length, length-append, All, ◌≡◌, refl, ap, ◌∙◌, arith,
  Bool-cases, Option-cases, inl, inr,
}
use mathlib.Core.List.{reverse, reverse-cons}
use conductr.Prelude.Result.{Result, ok, err, ◌>>=◌, Result-cases}
use conductr.Prelude.Split.{split_once, ends_with}
use conductr.Schedule.Notation.{NoteValue, from_letter}
use conductr.Schedule.Pattern.{Beat}
use conductr.Schedule.Duration.{Failure, error, panic, Parsed}
use conductr.Schedule.Parser.{
  Depth, deeper, splits_at, split_from, split_top_level, cons_first, but_last, is_tag_start,
  value_and_children, note_value, collect, content, parse_beat_from, parse_beat,
}

abbrev pub is_panic {ℓ} : {A : Type ℓ} → Result A Failure → Bool
is_panic (ok a) = false
is_panic (err (error e)) = false
is_panic (err panic) = true

length-reverse : (s : Text) → length (reverse s) ≡ length s
length-reverse [] = refl
length-reverse (c ∷ s) =
    ap length (reverse-cons c s)
    ∙ omega (arith, length-append (reverse s) (c ∷ []), length-reverse s)

length-trim_start-le : (s : Text) → length (trim_start s) ≤ length s
length-trim_start-le [] = omega arith
length-trim_start-le (c ∷ s) = elim (Bool-cases (is_whitespace c)) [
  | inl e ↦ rw e (omega (arith, length-trim_start-le s))
  | inr e ↦ rw e (omega arith)
]

length-trim-le : (s : Text) → length (trim s) ≤ length s
length-trim-le s =
    let middle = reverse (trim_start s) in
    omega (
      arith,
      length-reverse (trim_start middle),
      length-trim_start-le middle,
      length-reverse (trim_start s),
      length-trim_start-le s,
    )

length-but_last-le : (s : Text) → length (but_last s) ≤ length s
length-but_last-le [] = omega arith
length-but_last-le (c ∷ []) = omega arith
length-but_last-le (c ∷ d ∷ s) = omega (arith, length-but_last-le (d ∷ s))

length-split_once : (sep : ℕ) (s a b : Text) → split_once sep s ≡ some (a, b) → length b < length s
length-split_once sep [] a b h = cc
length-split_once sep (c ∷ s) a b h = elim (Bool-cases (c == sep)) [
  | inl e ↦ let same : s ≡ b = ground arith in omega (arith, ap length same)
  | inr e ↦ elim (Option-cases (split_once sep s)) [
    | inl absent ↦ ground arith
    | inr ((a', b'), found) ↦
        let same : b' ≡ b = ground arith in
        omega (arith, ap length same, length-split_once sep s a' b' found)
  ]
]

-- The parts of a text are no longer than the text.
abbrev AllShort : ℕ → List Text → Type 0
AllShort n parts = All (λ s. length s ≤ n) parts

AllShort-le : (m n : ℕ) (parts : List Text) → m ≤ n → AllShort m parts → AllShort n parts
AllShort-le m n [] h k = tt
AllShort-le m n (p ∷ parts) h (k, l) = (omega arith, AllShort-le m n parts h l)

AllShort-cons_first :
    (n c : ℕ) (parts : List Text) → AllShort n parts → AllShort (suc n) (cons_first c parts)
AllShort-cons_first n c [] h = (omega arith, tt)
AllShort-cons_first n c (p ∷ parts) (h, k) =
    (omega arith, AllShort-le n (suc n) parts (omega arith) k)

AllShort-split_from : (sep : ℕ) (d : Depth) (s : Text) → AllShort (length s) (split_from sep d s)
unfolding split_from
AllShort-split_from sep d [] = (omega arith, tt)
AllShort-split_from sep d (c ∷ s) =
    let ih = AllShort-split_from sep (deeper c d) s in
    elim (Bool-cases (splits_at sep c d)) [
      | inl e ↦ rw e (
        omega arith,
        AllShort-le (length s) (suc (length s)) (split_from sep (deeper c d) s) (omega arith) ih,
      )
      | inr e ↦ rw e (AllShort-cons_first (length s) c (split_from sep (deeper c d) s) ih)
    ]

AllShort-split_top_level : (s : Text) → AllShort (length s) (split_top_level s b',')
unfolding split_top_level
AllShort-split_top_level s = AllShort-split_from b',' (record { opened = 0; closed = 0 }) s

is_panic-collect :
    (parse_one : Text → Parsed Beat) (n : ℕ) (parts : List Text)
    → ((s : Text) → length s ≤ n → is_panic (parse_one s) ≡ false)
    → AllShort n parts
    → is_panic (collect parse_one parts) ≡ false
is_panic-collect parse_one n [] f h = refl
is_panic-collect parse_one n (s ∷ parts) f (h, k) =
    let ih = is_panic-collect parse_one n parts f k in
    let one = f s h in
    elim (Result-cases (parse_one s)) [
      | inl (b, e) ↦ elim (Result-cases (collect parse_one parts)) [
        | inl (bs, g) ↦ ground (arith, e, g)
        | inr (error bad, g) ↦ ground (arith, e, g)
        | inr (panic, g) ↦ ground (arith, ih, g)
      ]
      | inr (error bad, e) ↦ ground (arith, e)
      | inr (panic, e) ↦ ground (arith, one, e)
    ]

is_panic-note_value : (line : ℕ) (letter : Text) → is_panic (note_value line letter) ≡ false
is_panic-note_value line [] = refl
is_panic-note_value line (c ∷ []) = elim (Option-cases (from_letter c)) [
  | inl e ↦ ground arith
  | inr (value, e) ↦ ground arith
]
is_panic-note_value line (c ∷ d ∷ s) = refl

-- The text of the children is shorter.
abbrev ShortChildren : ℕ → Option Text → Type 0
ShortChildren n none = Unit
ShortChildren n (some children) = length children < n

abbrev ShortParts : ℕ → Parsed (Text × Option Text) → Type 0
ShortParts n (ok parts) = ShortChildren n parts.1
ShortParts n (err (error e)) = Unit
ShortParts n (err panic) = ⊥

ShortParts-value_and_children :
    (src : Text) (line : ℕ) (rest : Text)
    → ShortParts (length rest) (value_and_children src line rest)
ShortParts-value_and_children src line rest = elim (Option-cases (split_once b'[' rest)) [
  | inl e ↦ rw (e, value_and_children) tt
  | inr ((value, behind), e) ↦
      rw (e, value_and_children)
        (elim (Bool-cases (ends_with (codes "]") rest)) [
          | inl f ↦
              rw f (
                omega
                  (arith, length-but_last-le behind, length-split_once b'[' rest value behind e))
          | inr f ↦ rw f tt
        ])
]

is_panic-content :
    (parse_one : Text → Parsed Beat) (n : ℕ) (t : Text) (value : NoteValue) (children : Option Text)
    → ((s : Text) → length s < n → is_panic (parse_one s) ≡ false)
    → ShortChildren n children
    → is_panic (content parse_one t value children) ≡ false
is_panic-content parse_one n t value none f h = refl
is_panic-content parse_one n t value (some children) f h =
    let parts = split_top_level children b',' in
    let quiet =
      is_panic-collect (λ s. parse_one (trim s)) (length children) parts
        (λ s k. f (trim s) (omega (arith, length-trim-le s))) (AllShort-split_top_level children) in
    elim (Result-cases (collect (λ s. parse_one (trim s)) parts)) [
      | inl (beats, e) ↦ rw e refl
      | inr (error bad, e) ↦ rw e refl
      | inr (panic, e) ↦ ground (arith, quiet, e)
    ]

is_panic-bind :
    (line : ℕ) (parts : Parsed (Text × Option Text)) (parse_one : Text → Parsed Beat) (n : ℕ)
    (t : Text)
    → ((s : Text) → length s < n → is_panic (parse_one s) ≡ false)
    → ShortParts n parts
    → is_panic (
        parts >>= (λ (p : Text × Option Text).
          note_value line p.0 >>= (λ value. content parse_one t value p.1)))
      ≡ false
is_panic-bind line (err (error e)) parse_one n t f h = refl
is_panic-bind line (err panic) parse_one n t f h = elim h [ ]
is_panic-bind line (ok (letter, children)) parse_one n t f h =
    let quiet = is_panic-note_value line letter in
    elim (Result-cases (note_value line letter)) [
      | inl (value, e) ↦ rw e (is_panic-content parse_one n t value children f h)
      | inr (error bad, e) ↦ rw e refl
      | inr (panic, e) ↦ ground (arith, quiet, e)
    ]

is_panic-parse_beat_from :
    (fuel line : ℕ) (src : Text)
    → length src < fuel
    → is_panic (parse_beat_from fuel line src) ≡ false
unfolding parse_beat_from
is_panic-parse_beat_from zero line src h = ground arith
is_panic-parse_beat_from (suc fuel) line src h = elim (Option-cases (split_once b':' src)) [
  | inl e ↦ rw (e, parse_beat_from) refl
  | inr ((name, behind), e) ↦
      rw (e, parse_beat_from)
        (elim (Bool-cases (is_tag_start (trim name))) [
          | inl f ↦ rw f (
              is_panic-bind line (value_and_children src line (trim behind))
                (parse_beat_from fuel line) (length (trim behind)) (trim name)
                (λ s k.
                  is_panic-parse_beat_from fuel line s (
                    omega (arith, length-trim-le behind, length-split_once b':' src name behind e)))
                (ShortParts-value_and_children src line (trim behind)))
          | inr f ↦ rw f refl
        ])
]

-- The fuel that a beat is parsed with is enough: parsing a beat's text ends in a beat or in an error
-- of the parser.
pub is_panic-parse_beat : (src : Text) (line : ℕ) → is_panic (parse_beat src line) ≡ false
unfolding parse_beat
is_panic-parse_beat src line = is_panic-parse_beat_from (length src + 1) line src (omega arith)
