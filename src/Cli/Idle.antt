-- ===== src/Cli/Idle.antt =====
-- crates/conductr/src/idle.rs: the module that is scanned next, and the lines that a coverage report
-- leaves uncovered. Line numbers are `u64`s.
mod Examples
use conductr.Prelude.{
  ℕ, zero, suc, ◌+◌, ◌-◌, ◌%◌, Text, List, [], ◌∷◌, ◌++◌, Option, none, some, Bool, true, false,
  not, ◌&&◌, if◌then◌else◌, ◌==◌, leb, ltb, codes, text_eq, is_empty, length, take,
}
use conductr.Prelude.Sort.{sort_by}

abbrev pub use_case_crates : List Text
use_case_crates =
    codes "conductr-orchestrate"
    ∷ codes "conductr-pod"
    ∷ codes "conductr-tasks"
    ∷ codes "conductr-instance"
    ∷ codes "conductr-schedule"
    ∷ codes "conductr-mail"
    ∷ codes "conductr-setup"
    ∷ []

abbrev position : Text → List Text → Option ℕ
position t [] = none
position t (c ∷ rest) =
    let later = position t rest in
    if text_eq c t then some 0 else elim later [ none ↦ none | some i ↦ some (suc i) ]

abbrev crate_at : ℕ → List Text → Text
crate_at i [] = []
crate_at zero (c ∷ rest) = c
crate_at (suc i) (c ∷ rest) = crate_at i rest

unfoldable pub pick_module : Text → Text
pick_module last_module =
    if is_empty last_module
    then crate_at 0 use_case_crates
    else elim (position last_module use_case_crates) [
      | some pos ↦ crate_at ((pos + 1) % length use_case_crates) use_case_crates
      | none ↦ crate_at 0 use_case_crates
    ]

-- A segment with four entries or more, as the code reads it; shorter ones are left out. An entry of
-- another type than expected counts as 0 or false.
pub record Segment : Type 0 where
  pub line : ℕ
  pub count : ℕ
  pub has_count : Bool

abbrev is_uncovered : Segment → Bool
is_uncovered seg = seg.has_count && seg.count == 0

abbrev range_from : ℕ → ℕ → List (ℕ × ℕ)
range_from start end = if leb start end then (start, end) ∷ [] else []

abbrev end_before : ℕ → ℕ → ℕ
end_before line prev_line = if ltb 0 line then line - 1 else prev_line

-- The loop over the segments, and the range that is open at the end.
unfoldable pub ranges_from : Option ℕ → ℕ → List Segment → List (ℕ × ℕ)
ranges_from none prev_line [] = []
ranges_from (some start) prev_line [] = (start, prev_line) ∷ []
ranges_from none prev_line (seg ∷ rest) =
    ranges_from (if is_uncovered seg then some seg.line else none) seg.line rest
ranges_from (some start) prev_line (seg ∷ rest) =
    (if is_uncovered seg then [] else range_from start (end_before seg.line prev_line))
    ++ ranges_from (if is_uncovered seg then some start else none) seg.line rest

-- Longest first; `b.1 - b.0` of a range that ends before it begins would wrap, and is 0 here.
abbrev longer_first : ℕ × ℕ → ℕ × ℕ → Bool
longer_first a b = leb (b.1 - b.0) (a.1 - a.0)

abbrev starts_first : ℕ × ℕ → ℕ × ℕ → Bool
starts_first a b = leb a.0 b.0

unfoldable pub uncovered_ranges : List Segment → List (ℕ × ℕ)
uncovered_ranges segments =
    sort_by starts_first (take 5 (sort_by longer_first (ranges_from none 0 segments)))
