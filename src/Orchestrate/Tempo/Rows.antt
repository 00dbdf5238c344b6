-- ===== src/Orchestrate/Tempo/Rows.antt =====
-- The lines of a row that is appended.
use conductr.Prelude.{
  ℕ, ◌<◌, ◌^◌, Text, List, [], ◌∷◌, ◌++◌, append_assoc, some, Bool, true, false, ◌==◌, ==_iff, all,
  any, contains, contains-append, codes, map, trim, starts_with, text_eq, is_ascii_digit, ◌≡◌, refl,
  sym, ◌∙◌, ap, subst, arith, Bool-cases, inl, inr,
}
use conductr.Prelude.Decimal.{
  show_nat, parse_u64, parse_u64-show_nat, all-show_nat, is_empty-show_nat,
}
use conductr.Prelude.Split.{split, lines, strip_return}
use conductr.Prelude.Breaks.{is_line, lines-line, lines-append}
use conductr.Prelude.Trim.{trim-digits, trim-show_nat}
use conductr.Orchestrate.Tempo.{number_in, row_text, trim_equals, pr_header, ci_header, row_texts}
use conductr.Orchestrate.Tempo.Scan.{Finds, Finds-append, Finds-row, trim_equals-digits}

not-contains_digits :
    (c : ℕ) (d : Text)
    → is_ascii_digit c ≡ false
    → all is_ascii_digit d ≡ true
    → contains c d ≡ false
not-contains_digits c [] h k = refl
not-contains_digits c (x ∷ d) h k = ground (arith, not-contains_digits c d h)

is_line-numbered :
    (label : Text) (n : ℕ) → is_line label ≡ true → is_line (label ++ show_nat n) ≡ true
is_line-numbered label n h = ground (
  arith,
  contains-append 10 label (show_nat n),
  contains-append 13 label (show_nat n),
  not-contains_digits 10 (show_nat n) refl (all-show_nat n),
  not-contains_digits 13 (show_nat n) refl (all-show_nat n),
)

-- What the loop makes of the line of a number.
abbrev pub IsRow : Text → Text → Text → Type 0
IsRow header key label =
    (n : ℕ)
    → n < 2 ^ 64
    → (is_line (label ++ show_nat n) ≡ true)
      × (text_eq (trim (label ++ show_nat n)) header ≡ false)
      × (starts_with (codes "[[") (trim (label ++ show_nat n)) ≡ false)
      × (number_in key (trim (label ++ show_nat n)) ≡ n ∷ [])

read_number : (n : ℕ) → n < 2 ^ 64 → parse_u64 (trim (trim_equals (show_nat n))) ≡ some n
read_number n h =
    ap (λ (t : Text). parse_u64 (trim t))
      (trim_equals-digits (show_nat n) (is_empty-show_nat n) (all-show_nat n))
    ∙ (ap parse_u64 (trim-show_nat n) ∙ parse_u64-show_nat n h)

pub pr-IsRow : IsRow pr_header (codes "number") (codes "number     = ")
pr-IsRow n h =
    let whole = trim-digits (codes "number     = ") n refl in
    (
      is_line-numbered (codes "number     = ") n refl,
      ap (λ (t : Text). text_eq t pr_header) whole,
      ap (starts_with (codes "[[")) whole,
      ap (number_in (codes "number")) whole ∙ ground (arith, read_number n h),
    )

pub ci-IsRow : IsRow ci_header (codes "pr") (codes "pr      = ")
ci-IsRow n h =
    let whole = trim-digits (codes "pr      = ") n refl in
    (
      is_line-numbered (codes "pr      = ") n refl,
      ap (λ (t : Text). text_eq t ci_header) whole,
      ap (starts_with (codes "[[")) whole,
      ap (number_in (codes "pr")) whole ∙ ground (arith, read_number n h),
    )

row_text-lines :
    (header line fields before after : Text)
    → before ++ ((10 ∷ 10 ∷ (header ++ (10 ∷ (line ++ (10 ∷ fields))))) ++ after)
      ≡ (before ++ (10 ∷ [])) ++ (10 ∷ (header ++ (10 ∷ (line ++ (10 ∷ (fields ++ after))))))
row_text-lines header line fields before after = simp append_assoc

Finds-row_text :
    (header key label : Text) (n : ℕ) (fields before after : Text)
    → IsRow header key label
    → is_line header ≡ true
    → trim header ≡ header
    → n < 2 ^ 64
    → Finds header key n (lines (before ++ (row_text header label n fields ++ after)))
unfolding row_text
Finds-row_text header key label n fields before after row l t h =
    let line = label ++ show_nat n in
    let (clean, e, o, m) = row n h in
    let same : lines (before ++ (row_text header label n fields ++ after))
        ≡ map strip_return (split 10 (before ++ (10 ∷ [])))
          ++ (header ∷ line ∷ lines (fields ++ after)) =
      ap lines (row_text-lines header line fields before after)
      ∙ (lines-append (before ++ (10 ∷ [])) (header ++ (10 ∷ (line ++ (10 ∷ (fields ++ after)))))
          ∙ ap (λ (ls : List Text). map strip_return (split 10 (before ++ (10 ∷ []))) ++ ls)
              (lines-line header (line ++ (10 ∷ (fields ++ after))) l
                ∙ ap (λ (ls : List Text). header ∷ ls)
                    (lines-line line (fields ++ after) clean))) in
    subst (Finds header key n) (sym same) (
      Finds-append header key n (map strip_return (split 10 (before ++ (10 ∷ []))))
        (header ∷ line ∷ lines (fields ++ after))
        (Finds-row header key line n (lines (fields ++ after)) t e o m))

-- Some row has the number.
abbrev pub has : ℕ → List (ℕ × Text) → Bool
has n rows = any (λ (row : ℕ × Text). row.0 == n) rows

pub Finds-row_texts :
    (header key label : Text) (there : List ℕ) (rows : List (ℕ × Text)) (n : ℕ)
    (before after : Text)
    → IsRow header key label
    → is_line header ≡ true
    → trim header ≡ header
    → n < 2 ^ 64
    → contains n there ≡ false
    → has n rows ≡ true
    → Finds header key n (lines (before ++ (row_texts header label there rows ++ after)))
unfolding row_texts
Finds-row_texts header key label there [] n before after r l t h k e = cc
Finds-row_texts header key label there ((m, fields) ∷ rest) n before after r l t h k e =
    let later = row_texts header label there rest in
    let this = row_text header label m fields in
    elim (Bool-cases (contains m there)) [
      | inl old ↦ rw old (
          Finds-row_texts header key label there rest n before after r l t h k
            (ground (arith, ==_iff m n)))
      | inr fresh ↦ rw fresh (elim (Bool-cases (m == n)) [
        | inl same ↦
            let found = Finds-row_text header key label n fields before (later ++ after) r l t h in
            subst (λ (text : Text). Finds header key n (lines (before ++ text)))
              (ap (λ (j : ℕ). row_text header label j fields ++ (later ++ after))
                  (ground (arith, same))
                ∙ sym (append_assoc this later after))
              found
        | inr other ↦
            subst (λ (text : Text). Finds header key n (lines text))
              (append_assoc before this (later ++ after)
                ∙ ap (λ (text : Text). before ++ text) (sym (append_assoc this later after)))
              (Finds-row_texts header key label there rest n (before ++ this) after r l t h k
                (ground arith))
      ])
    ]

-- What is appended begins with a line break.
pub row_texts-break :
    (header label : Text) (there : List ℕ) (rows : List (ℕ × Text)) (after : Text)
    → (rest : Text) × (row_texts header label there rows ++ (10 ∷ after) ≡ 10 ∷ rest)
unfolding row_texts row_text
row_texts-break header label there [] after = (after, refl)
row_texts-break header label there ((m, fields) ∷ rows) after =
    elim (Bool-cases (contains m there)) [
      | inl old ↦ rw old (row_texts-break header label there rows after)
      | inr fresh ↦ rw fresh (_, refl)
    ]
