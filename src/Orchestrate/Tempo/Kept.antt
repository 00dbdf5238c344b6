-- ===== src/Orchestrate/Tempo/Kept.antt =====
-- The numbers that a file has keep being found when text is appended.
use conductr.Prelude.{
  ℕ, Text, List, [], ◌∷◌, ◌++◌, append-nil, Bool, true, false, not, ◌&&◌, ◌||◌, if◌then◌else◌, ◌==◌,
  all, contains, contains-append, codes, is_empty, map, trim, starts_with, text_eq, ◌≡◌, refl, sym,
  ◌∙◌, ap, arith, Bool-cases, inl, inr,
}
use mathlib.Core.List.{reverse, reverse-append, reverse-reverse}
use conductr.Prelude.Split.{
  split, lines, strip_return, drop_empty_last, trim_start_matches, trim_end_matches,
}
use conductr.Prelude.Breaks.{
  is_line, lines-append, split-append, all-is_line-split, strip_returns-is_line,
  strip_return-is_line,
}
use conductr.Prelude.Trim.{all-reverse}
use conductr.Orchestrate.Tempo.{scan, number_in}
use conductr.Orchestrate.Tempo.Scan.{contains-scan-append}

map-strip_return : (parts : List Text) → all is_line parts ≡ true → map strip_return parts ≡ parts
map-strip_return [] h = refl
map-strip_return (p ∷ parts) h = ground (arith, strip_return-is_line p, map-strip_return parts)

trim_start_matches-front :
    (c : ℕ) (s : Text)
    → (front : Text) × (s ≡ front ++ trim_start_matches c s) × (all (λ d. d == c) front ≡ true)
trim_start_matches-front c [] = ([], refl, refl)
trim_start_matches-front c (d ∷ s) = elim (Bool-cases (d == c)) [
  | inl e ↦
      let (front, same, cs) = trim_start_matches-front c s in
      (d ∷ front, rw e (ap (λ (t : Text). d ∷ t) same), ground arith)
  | inr e ↦ ([], rw e refl, refl)
]

trim_end_matches-back :
    (c : ℕ) (s : Text)
    → (back : Text) × (s ≡ trim_end_matches c s ++ back) × (all (λ d. d == c) back ≡ true)
trim_end_matches-back c s =
    let (front, same, cs) = trim_start_matches-front c (reverse s) in
    (
      reverse front,
      sym (reverse-reverse s)
          ∙ (ap reverse same ∙ reverse-append front (trim_start_matches c (reverse s))),
      all-reverse (λ d. d == c) front ∙ cs,
    )

all-is_empty-split : (s : Text) → all (λ d. d == 10) s ≡ true → all is_empty (split 10 s) ≡ true
all-is_empty-split [] h = refl
all-is_empty-split (c ∷ s) h = ground (arith, all-is_empty-split s)

scan-cons :
    (header key line : Text) (a b : List Text)
    → ((in_section : Bool) → scan header key in_section a ≡ scan header key in_section b)
    → (in_section : Bool)
    → scan header key in_section (line ∷ a) ≡ scan header key in_section (line ∷ b)
unfolding scan
scan-cons header key line a b f in_section =
    let is_header = text_eq (trim line) header in
    let is_other = starts_with (codes "[[") (trim line) in
    ap
      (λ (later : List ℕ).
        if not is_header && not is_other && in_section
        then number_in key (trim line) ++ later
        else later)
      (f (is_header || (not is_other && in_section)))

-- Empty lines say nothing to the loop.
module _ (header key : Text) (plain : text_eq [] header ≡ false)
    (quiet : number_in key [] ≡ []) where
  scan-empty :
      (in_section : Bool) (parts : List Text)
      → all is_empty parts ≡ true
      → scan header key in_section parts ≡ []
  unfolding scan
  scan-empty in_section [] h = refl
  scan-empty in_section ([] ∷ parts) h =
      ground (arith, plain, quiet, scan-empty true parts h, scan-empty false parts h)
  scan-empty in_section ((c ∷ p) ∷ parts) h = cc

  scan-append_empty :
      (front back : List Text) (in_section : Bool)
      → all is_empty back ≡ true
      → scan header key in_section (front ++ back) ≡ scan header key in_section front
  unfolding scan
  scan-append_empty [] back in_section h = scan-empty in_section back h
  scan-append_empty (line ∷ front) back in_section h =
      scan-cons header key line (front ++ back) front (λ next. scan-append_empty front back next h)
        in_section

  scan-split_breaks :
      (s back : Text) (in_section : Bool)
      → all (λ d. d == 10) back ≡ true
      → scan header key in_section (split 10 (s ++ back)) ≡ scan header key in_section (split 10 s)
  scan-split_breaks s [] in_section h =
      ap (λ (t : Text). scan header key in_section (split 10 t)) (append-nil s)
  scan-split_breaks s (c ∷ back) in_section h =
      let first : c ≡ 10 = ground (arith, h) in
      ap (λ (d : ℕ). scan header key in_section (split 10 (s ++ (d ∷ back)))) first
      ∙ (ap (scan header key in_section) (split-append s back)
          ∙ scan-append_empty (split 10 s) (split 10 back) in_section
              (all-is_empty-split back (ground (arith, h))))

  scan-drop_empty_last :
      (parts : List Text) (in_section : Bool)
      → scan header key in_section (drop_empty_last parts) ≡ scan header key in_section parts
  scan-drop_empty_last [] in_section = refl
  scan-drop_empty_last ([] ∷ []) in_section =
      scan-empty in_section [] refl ∙ sym (scan-empty in_section ([] ∷ []) refl)
  scan-drop_empty_last ([] ∷ q ∷ parts) in_section =
      scan-cons header key [] (drop_empty_last (q ∷ parts)) (q ∷ parts)
        (scan-drop_empty_last (q ∷ parts)) in_section
  scan-drop_empty_last ((c ∷ p) ∷ parts) in_section =
      scan-cons header key (c ∷ p) (drop_empty_last parts) parts (scan-drop_empty_last parts)
        in_section

  -- With no carriage return, the loop finds what it finds in the text without its last line breaks.
  scan-trim_end_matches :
      (s : Text) (in_section : Bool)
      → contains 13 s ≡ false
      → scan header key in_section (lines s)
        ≡ scan header key in_section (split 10 (trim_end_matches 10 s))
  scan-trim_end_matches s in_section h =
      let (back, same, breaks) = trim_end_matches-back 10 s in
      ap (λ (parts : List Text). scan header key in_section (drop_empty_last parts))
        (strip_returns-is_line (split 10 s) (all-is_line-split s h))
      ∙ (scan-drop_empty_last (split 10 s) in_section
          ∙ (ap (λ (t : Text). scan header key in_section (split 10 t)) same
              ∙ scan-split_breaks (trim_end_matches 10 s) back in_section breaks))

  -- What the loop finds in a text it finds after something is appended behind a line break.
  pub contains-scan-kept :
      (s appended : Text) (n : ℕ)
      → contains 13 s ≡ false
      → contains n (scan header key false (lines s)) ≡ true
      → contains n (scan header key false (lines (trim_end_matches 10 s ++ (10 ∷ appended)))) ≡ true
  contains-scan-kept s appended n h e =
      let trimmed = trim_end_matches 10 s in
      let (back, same, breaks) = trim_end_matches-back 10 s in
      let clean : contains 13 trimmed ≡ false =
        ground (arith, ap (contains 13) same, contains-append 13 trimmed back) in
      let parts : map strip_return (split 10 trimmed) ≡ split 10 trimmed =
        map-strip_return (split 10 trimmed) (all-is_line-split trimmed clean) in
      ap (λ (l : List Text). contains n (scan header key false l)) (lines-append trimmed appended)
      ∙ contains-scan-append header key n (map strip_return (split 10 trimmed)) (lines appended)
          false
          (ap (λ (l : List Text). contains n (scan header key false l)) parts
            ∙ (ap (contains n) (sym (scan-trim_end_matches s false h)) ∙ e))
