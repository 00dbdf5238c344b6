-- ===== src/Orchestrate/Tempo/Scan.antt =====
-- The numbers that the loop over a file's lines finds.
use conductr.Prelude.{
  ℕ, Text, List, [], ◌∷◌, ◌++◌, Bool, true, false, not, ◌&&◌, ◌||◌, if◌then◌else◌, all, contains,
  contains-append, codes, is_empty, trim, starts_with, text_eq, text_eq_refl, ==_refl,
  is_ascii_digit, ◌≡◌, arith,
}
use conductr.Orchestrate.Tempo.{scan, number_in, trim_equals}

pub trim_equals-digits :
    (d : Text) → is_empty d ≡ false → all is_ascii_digit d ≡ true → trim_equals d ≡ d
trim_equals-digits [] h k = cc
trim_equals-digits (c ∷ d) h k = ground arith

contains-if :
    (n : ℕ) (c : Bool) (nums later : List ℕ)
    → contains n later ≡ true
    → contains n (if c then nums ++ later else later) ≡ true
contains-if n true nums later h = ground (arith, contains-append n nums later)
contains-if n false nums later h = h

contains-if_mono :
    (n : ℕ) (c : Bool) (nums before after : List ℕ)
    → contains n (if c then nums ++ before else before) ≡ true
    → (contains n before ≡ true → contains n after ≡ true)
    → contains n (if c then nums ++ after else after) ≡ true
contains-if_mono n true nums before after h f =
    ground (arith, contains-append n nums before, contains-append n nums after, f)
contains-if_mono n false nums before after h f = f h

-- From any state the loop over these lines finds `n`.
abbrev pub Finds : Text → Text → ℕ → List Text → Type 0
Finds header key n text = (in_section : Bool) → contains n (scan header key in_section text) ≡ true

pub Finds-append :
    (header key : Text) (n : ℕ) (front text : List Text)
    → Finds header key n text
    → Finds header key n (front ++ text)
unfolding scan
Finds-append header key n [] text f in_section = f in_section
Finds-append header key n (line ∷ front) text f in_section =
    let trimmed = trim line in
    let next = text_eq trimmed header || (not (starts_with (codes "[[") trimmed) && in_section) in
    contains-if n
      (not (text_eq trimmed header) && not (starts_with (codes "[[") trimmed) && in_section)
      (number_in key trimmed) (scan header key next (front ++ text))
      (Finds-append header key n front text f next)

-- What is found in the lines before is found.
pub contains-scan-append :
    (header key : Text) (n : ℕ) (front text : List Text) (in_section : Bool)
    → contains n (scan header key in_section front) ≡ true
    → contains n (scan header key in_section (front ++ text)) ≡ true
unfolding scan
contains-scan-append header key n [] text in_section h = cc
contains-scan-append header key n (line ∷ front) text in_section h =
    let trimmed = trim line in
    let next = text_eq trimmed header || (not (starts_with (codes "[[") trimmed) && in_section) in
    contains-if_mono n
      (not (text_eq trimmed header) && not (starts_with (codes "[[") trimmed) && in_section)
      (number_in key trimmed) (scan header key next front) (scan header key next (front ++ text)) h
      (contains-scan-append header key n front text next)

-- A header and the line of a number.
pub Finds-row :
    (header key line : Text) (n : ℕ) (rest : List Text)
    → trim header ≡ header
    → text_eq (trim line) header ≡ false
    → starts_with (codes "[[") (trim line) ≡ false
    → number_in key (trim line) ≡ n ∷ []
    → Finds header key n (header ∷ line ∷ rest)
unfolding scan
Finds-row header key line n rest t e o m in_section =
    ground (arith, t, e, o, m, text_eq_refl header, ==_refl n)
