-- ===== src/Orchestrate/Tempo/Flush.antt =====
-- What a second flush of the same rows writes.
use conductr.Prelude.{
  ℕ, ◌<◌, ◌^◌, Text, List, [], ◌∷◌, ◌++◌, append_assoc, none, some, Bool, true, false, not, ==_refl,
  ltb, ltb→lt, all, any, contains, codes, map, ◌≡◌, refl, sym, ◌∙◌, ap, subst, arith, Bool-cases,
  inl, inr,
}
use conductr.Prelude.Split.{trim_end_matches}
use conductr.Orchestrate.Tempo.{
  TempoPrRow, CiRunRow, parse_existing_numbers, pr_header, ci_header, row_texts, numbered_pr,
  numbered_ci, pr_texts, ci_texts, append_rows,
}
use conductr.Orchestrate.Tempo.Rows.{Finds-row_texts, row_texts-break, pr-IsRow, ci-IsRow, has}
use conductr.Orchestrate.Tempo.Kept.{contains-scan-kept}

-- The numbers of the rows are 64-bit numbers.
abbrev pub fit : List (ℕ × Text) → Bool
fit rows = all (λ (row : ℕ × Text). ltb row.0 (2 ^ 64)) rows

-- Some row's number is missing.
abbrev missing : List ℕ → List (ℕ × Text) → Bool
missing there rows = any (λ (row : ℕ × Text). not (contains row.0 there)) rows

none_missing :
    (there : List ℕ) (rows : List (ℕ × Text))
    → fit rows ≡ true
    → ((n : ℕ) → n < 2 ^ 64 → has n rows ≡ true → contains n there ≡ true)
    → missing there rows ≡ false
none_missing there [] f h = refl
none_missing there (row ∷ rest) f h =
    let small = ltb→lt row.0 (2 ^ 64) (ground arith) in
    let here = h row.0 small (ground (arith, ==_refl row.0)) in
    let later = none_missing there rest (ground arith) (λ n b e. h n b (ground arith)) in
    ground (arith, here, later)

-- The text that is appended, of two lists of rows.
abbrev appended : List ℕ → List ℕ → List (ℕ × Text) → List (ℕ × Text) → Text
appended prs cis pr_rows ci_rows =
    (row_texts pr_header (codes "number     = ") prs pr_rows
      ++ row_texts ci_header (codes "pr      = ") cis ci_rows)
    ++ codes "\n"

appended-break :
    (prs cis : List ℕ) (pr_rows ci_rows : List (ℕ × Text))
    → (rest : Text) × (appended prs cis pr_rows ci_rows ≡ 10 ∷ rest)
appended-break prs cis pr_rows ci_rows =
    let p = row_texts pr_header (codes "number     = ") prs pr_rows in
    let c = row_texts ci_header (codes "pr      = ") cis ci_rows in
    let (r, e) = row_texts-break ci_header (codes "pr      = ") cis ci_rows [] in
    let (q, f) = row_texts-break pr_header (codes "number     = ") prs pr_rows r in
    (q, append_assoc p c (codes "\n") ∙ (ap (λ (t : Text). p ++ t) e ∙ f))

-- What a file holds after a flush.
abbrev flushed : Text → List (ℕ × Text) → List (ℕ × Text) → Text
flushed existing pr_rows ci_rows =
    trim_end_matches 10 existing
    ++ appended (parse_existing_numbers existing pr_header (codes "number"))
        (parse_existing_numbers existing ci_header (codes "pr")) pr_rows ci_rows

contains-flushed_old :
    (existing : Text) (pr_rows ci_rows : List (ℕ × Text)) (n : ℕ)
    → contains 13 existing ≡ false
    → (contains n (parse_existing_numbers existing pr_header (codes "number")) ≡ true
        → contains n
            (parse_existing_numbers (flushed existing pr_rows ci_rows) pr_header (codes "number"))
          ≡ true)
      × (contains n (parse_existing_numbers existing ci_header (codes "pr")) ≡ true
          → contains n
              (parse_existing_numbers (flushed existing pr_rows ci_rows) ci_header (codes "pr"))
            ≡ true)
unfolding parse_existing_numbers
contains-flushed_old existing pr_rows ci_rows n r =
    let (rest, e) =
      appended-break (parse_existing_numbers existing pr_header (codes "number"))
        (parse_existing_numbers existing ci_header (codes "pr")) pr_rows ci_rows in
    let front = trim_end_matches 10 existing in
    (
      λ h.
          ap
            (λ (t : Text).
              contains n (parse_existing_numbers (front ++ t) pr_header (codes "number")))
            e
          ∙ contains-scan-kept pr_header (codes "number") refl refl existing rest n r h,
      λ h.
          ap (λ (t : Text). contains n (parse_existing_numbers (front ++ t) ci_header (codes "pr")))
            e
          ∙ contains-scan-kept ci_header (codes "pr") refl refl existing rest n r h,
    )

contains-flushed_pr :
    (existing : Text) (pr_rows ci_rows : List (ℕ × Text)) (n : ℕ)
    → n < 2 ^ 64
    → contains n (parse_existing_numbers existing pr_header (codes "number")) ≡ false
    → has n pr_rows ≡ true
    → contains n
        (parse_existing_numbers (flushed existing pr_rows ci_rows) pr_header (codes "number"))
      ≡ true
unfolding parse_existing_numbers
contains-flushed_pr existing pr_rows ci_rows n b m h =
    let prs = parse_existing_numbers existing pr_header (codes "number") in
    let cis = parse_existing_numbers existing ci_header (codes "pr") in
    let p = row_texts pr_header (codes "number     = ") prs pr_rows in
    let c = row_texts ci_header (codes "pr      = ") cis ci_rows in
    ap
      (λ (t : Text).
        contains n
          (parse_existing_numbers (trim_end_matches 10 existing ++ t) pr_header (codes "number")))
      (append_assoc p c (codes "\n"))
    ∙ Finds-row_texts pr_header (codes "number") (codes "number     = ") prs pr_rows n
        (trim_end_matches 10 existing) (c ++ codes "\n") pr-IsRow refl refl b m h false

contains-flushed_ci :
    (existing : Text) (pr_rows ci_rows : List (ℕ × Text)) (n : ℕ)
    → n < 2 ^ 64
    → contains n (parse_existing_numbers existing ci_header (codes "pr")) ≡ false
    → has n ci_rows ≡ true
    → contains n (parse_existing_numbers (flushed existing pr_rows ci_rows) ci_header (codes "pr"))
      ≡ true
unfolding parse_existing_numbers
contains-flushed_ci existing pr_rows ci_rows n b m h =
    let prs = parse_existing_numbers existing pr_header (codes "number") in
    let cis = parse_existing_numbers existing ci_header (codes "pr") in
    let p = row_texts pr_header (codes "number     = ") prs pr_rows in
    let c = row_texts ci_header (codes "pr      = ") cis ci_rows in
    let front = trim_end_matches 10 existing in
    ap (λ (t : Text). contains n (parse_existing_numbers t ci_header (codes "pr")))
      (ap (λ (t : Text). front ++ t) (append_assoc p c (codes "\n"))
        ∙ sym (append_assoc front p (c ++ codes "\n")))
    ∙ Finds-row_texts ci_header (codes "pr") (codes "pr      = ") cis ci_rows n (front ++ p)
        (codes "\n") ci-IsRow refl refl b m h false

missing-numbered_pr :
    (there : List ℕ) (rows : List TempoPrRow)
    → any (λ (row : TempoPrRow). not (contains row.number there)) rows
      ≡ missing there (map numbered_pr rows)
missing-numbered_pr there [] = refl
missing-numbered_pr there (row ∷ rest) = ground (arith, missing-numbered_pr there rest)

missing-numbered_ci :
    (there : List ℕ) (rows : List CiRunRow)
    → any (λ (row : CiRunRow). not (contains row.pr there)) rows
      ≡ missing there (map numbered_ci rows)
missing-numbered_ci there [] = refl
missing-numbered_ci there (row ∷ rest) = ground (arith, missing-numbered_ci there rest)

append_rows-flushed :
    (existing new : Text) (pr_rows : List TempoPrRow) (ci_rows : List CiRunRow)
    → append_rows existing pr_rows ci_rows ≡ some new
    → flushed existing (map numbered_pr pr_rows) (map numbered_ci ci_rows) ≡ new
unfolding append_rows pr_texts ci_texts
append_rows-flushed existing new pr_rows ci_rows h = ground (arith, h)

append_rows-none :
    (text : Text) (pr_rows : List TempoPrRow) (ci_rows : List CiRunRow)
    → missing (parse_existing_numbers text pr_header (codes "number")) (map numbered_pr pr_rows)
      ≡ false
    → missing (parse_existing_numbers text ci_header (codes "pr")) (map numbered_ci ci_rows) ≡ false
    → append_rows text pr_rows ci_rows ≡ none
unfolding append_rows
append_rows-none text pr_rows ci_rows h k = ground (
  arith,
  missing-numbered_pr (parse_existing_numbers text pr_header (codes "number")) pr_rows,
  missing-numbered_ci (parse_existing_numbers text ci_header (codes "pr")) ci_rows,
)

-- When a flush of rows writes the file, flushing the same rows again writes nothing, where the file
-- had no carriage return and the rows' numbers are below 2^64.
pub append_rows-append_rows :
    (existing new : Text) (pr_rows : List TempoPrRow) (ci_rows : List CiRunRow)
    → contains 13 existing ≡ false
    → fit (map numbered_pr pr_rows) ≡ true
    → fit (map numbered_ci ci_rows) ≡ true
    → append_rows existing pr_rows ci_rows ≡ some new
    → append_rows new pr_rows ci_rows ≡ none
append_rows-append_rows existing new pr_rows ci_rows r f g h =
    let prs = map numbered_pr pr_rows in
    let cis = map numbered_ci ci_rows in
    subst (λ (text : Text). append_rows text pr_rows ci_rows ≡ none)
      (append_rows-flushed existing new pr_rows ci_rows h)
      (append_rows-none (flushed existing prs cis) pr_rows ci_rows
        (none_missing (parse_existing_numbers (flushed existing prs cis) pr_header (codes "number"))
          prs f
          (λ n b e.
            elim (Bool-cases
              (contains n (parse_existing_numbers existing pr_header (codes "number")))) [
                | inl old ↦ (contains-flushed_old existing prs cis n r).0 old
                | inr fresh ↦ contains-flushed_pr existing prs cis n b fresh e
              ]))
        (none_missing (parse_existing_numbers (flushed existing prs cis) ci_header (codes "pr")) cis
          g
          (λ n b e.
            elim (Bool-cases
              (contains n (parse_existing_numbers existing ci_header (codes "pr")))) [
                | inl old ↦ (contains-flushed_old existing prs cis n r).1 old
                | inr fresh ↦ contains-flushed_ci existing prs cis n b fresh e
              ])))
