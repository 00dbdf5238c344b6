-- ===== src/Schedule/FromPlan.antt =====
-- crates/conductr-schedule/src/from_plan.rs: an implementation plan in Markdown, and its check.
pub mod Check
use conductr.Prelude.{
  ℕ, zero, suc, ◌+◌, ◌-◌, ◌*◌, ◌/◌, ◌%◌, Text, List, [], ◌∷◌, ◌++◌, Option, none, some, Bool, true,
  false, not, ◌&&◌, ◌||◌, if◌then◌else◌, ◌==◌, leb, ltb, codes, trim, strip_prefix, starts_with,
  is_ascii_digit, all, map, text_eq, text_mem, length,
}
use conductr.Prelude.Result.{Result, ok, err, ◌>>=◌, ◌>>◌}
use conductr.Prelude.Split.{split_at, split, lines, split_whitespace, trim_end_matches}
use conductr.Schedule.Notation.{
  NoteValue, whole, half, quarter, eighth, sixteenth, thirty_second, sixty_fourth, in_64ths,
  from_letter, TimeSignature, Tempo, wrap,
}
use conductr.Schedule.Pattern.{Beat, tag, Beats, no_beats, then_beat, Bar, Pattern}

pub data PlanError : Type 0 where
  duplicate_id : (id : Text) → PlanError
  unknown_dep : (item dep : Text) → PlanError

pub record PlanItem : Type 0 where
  pub id : Text
  pub title : Text
  pub deps : List Text
  pub estimate : NoteValue

pub record Plan : Type 0 where
  pub items : List PlanItem

-- `s.starts_with('T')`, longer than that, and digits from there on.
unfoldable pub is_ticket_id : Text → Bool
is_ticket_id [] = false
is_ticket_id (c ∷ []) = false
is_ticket_id (c ∷ d ∷ s) = c == b'T' && all is_ascii_digit (d ∷ s)

abbrev ticket_of : Option (Text × Text) → Option PlanItem
ticket_of none = none
ticket_of (some (id_part, title_part)) =
    if is_ticket_id (trim id_part)
    then some (record { id = trim id_part; title = trim title_part; deps = []; estimate = quarter })
    else none

unfoldable pub try_parse_ticket_heading : Text → Option PlanItem
try_parse_ticket_heading rest = elim (split_at (codes " — ") (trim rest)) [
  | some parts ↦ ticket_of (some parts)
  | none ↦ ticket_of (split_at (codes " - ") (trim rest))
]

abbrev first_word : List Text → Text
first_word [] = []
first_word (w ∷ rest) = w

-- What one segment between commas adds to the dependencies.
abbrev dep_of : Text → List Text
dep_of seg =
    let token = trim_end_matches b'.' (first_word (split_whitespace (trim seg))) in
    if is_ticket_id token then token ∷ [] else []

unfoldable pub collect_segments : List Text → List Text → List Text
collect_segments [] deps = deps
collect_segments (seg ∷ rest) deps = collect_segments rest (deps ++ dep_of seg)

unfoldable pub collect_deps : Text → List Text → List Text
collect_deps rest deps = collect_segments (split b',' (trim_end_matches b'.' (trim rest))) deps

abbrev estimate_of : Text → NoteValue → NoteValue
estimate_of [] old = old
estimate_of (c ∷ s) old = elim (from_letter c) [ none ↦ old | some nv ↦ nv ]

-- A line within a section.
unfoldable pub read_line : Text → PlanItem → PlanItem
read_line trimmed cur = elim (strip_prefix (codes "**Depends on:**") trimmed) [
  | some rest ↦ record cur { deps = collect_deps rest cur.deps }
  | none ↦ elim (strip_prefix (codes "**Estimate:**") trimmed) [
    | some rest ↦ record cur { estimate = estimate_of (trim rest) cur.estimate }
    | none ↦ cur
  ]
]

abbrev pushed : Option PlanItem → List PlanItem
pushed none = []
pushed (some item) = item ∷ []

abbrev read_current : Text → Option PlanItem → Option PlanItem
read_current trimmed none = none
read_current trimmed (some cur) = some (read_line trimmed cur)

-- The body of the loop over the lines: the items pushed, and the current one.
abbrev parse_line : Text → Option PlanItem → List PlanItem × Option PlanItem
parse_line trimmed current = elim (strip_prefix (codes "### ") trimmed) [
  | some rest ↦ elim (try_parse_ticket_heading rest) [
    | some new_item ↦ (pushed current, some new_item)
    | none ↦ ([], current)
  ]
  | none ↦ ([], read_current trimmed current)
]

unfoldable pub parse_lines : List Text → Option PlanItem → List PlanItem
parse_lines [] current = pushed current
parse_lines (line ∷ rest) current =
    let step = parse_line (trim line) current in step.0 ++ parse_lines rest step.1

unfoldable pub find_duplicate : List Text → List PlanItem → Result (List Text) PlanError
find_duplicate seen [] = ok seen
find_duplicate seen (item ∷ rest) =
    let later = find_duplicate (item.id ∷ seen) rest in
    if text_mem item.id seen then err (duplicate_id item.id) else later

unfoldable pub find_unknown_dep : List Text → Text → List Text → Result (Unit {0}) PlanError
find_unknown_dep seen id [] = ok tt
find_unknown_dep seen id (dep ∷ rest) =
    let later = find_unknown_dep seen id rest in
    if text_mem dep seen then later else err (unknown_dep id dep)

unfoldable pub find_unknown : List Text → List PlanItem → Result (Unit {0}) PlanError
find_unknown seen [] = ok tt
find_unknown seen (item ∷ rest) = find_unknown_dep seen item.id item.deps >> find_unknown seen rest

unfoldable pub validate_plan : List PlanItem → Result (Unit {0}) PlanError
validate_plan items = find_duplicate [] items >>= (λ seen. find_unknown seen items)

unfoldable pub parse_plan : Text → Result Plan PlanError
parse_plan markdown =
    let items = parse_lines (lines markdown) none in
    validate_plan items >> ok (record { items = items })
