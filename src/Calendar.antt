-- ===== src/Calendar.antt =====
-- crates/conductr-calendar/src/parse.rs: titles and descriptions of calendar events. A point in time
-- is a number of seconds; chrono's reading and printing of times are arguments.
mod Examples
pub mod Slots
use conductr.Prelude.{
  ℕ, Text, List, [], ◌∷◌, ◌++◌, Option, none, some, Bool, true, false, ◌&&◌, ◌||◌, if◌then◌else◌,
  codes, trim, starts_with, strip_prefix, text_eq, is_empty, any, ltb,
}
use conductr.Prelude.Split.{split, split_once, lines}

pub data EventKind : Type 0 where
  window : (tags : List Text) → EventKind
  blocked unknown : EventKind
  decision test review : (tag : Option Text) (subject : Text) → EventKind

unfoldable pub is_scheduled_item : EventKind → Bool
is_scheduled_item (decision tag subject) = true
is_scheduled_item (test tag subject) = true
is_scheduled_item (review tag subject) = true
is_scheduled_item _ = false

unfoldable pub is_decision : EventKind → Bool
is_decision (decision tag subject) = true
is_decision _ = false

unfoldable pub is_conductr_event : Text → Bool
is_conductr_event title = starts_with (codes "[conductr:") title

abbrev trimmed_tags : List Text → List Text
trimmed_tags [] = []
trimmed_tags (t ∷ rest) =
    if is_empty (trim t) then trimmed_tags rest else trim t ∷ trimmed_tags rest

-- `*` is no tag.
abbrev tag_of : Text → Option Text
tag_of inner = if text_eq inner (codes "*") then none else some inner

unfoldable pub scheduled_item : Option Text → Text → EventKind
scheduled_item tag after_bracket = elim (strip_prefix (codes "decision:") after_bracket) [
  | some subject ↦ decision tag (trim subject)
  | none ↦ elim (strip_prefix (codes "test:") after_bracket) [
    | some subject ↦ test tag (trim subject)
    | none ↦ elim (strip_prefix (codes "review:") after_bracket) [
      | some subject ↦ review tag (trim subject)
      | none ↦ unknown
    ]
  ]
]

-- What stands between `conductr:` and the bracket that closes, and behind it.
unfoldable pub event_of : Text → Text → EventKind
event_of inner after_bracket =
    if text_eq inner (codes "window")
    then window []
    else elim (strip_prefix (codes "window:") inner) [
      | some rest ↦ window (trimmed_tags (split b',' rest))
      | none ↦
          if text_eq inner (codes "blocked")
          then blocked
          else scheduled_item (tag_of inner) after_bracket
    ]

-- `&title[1..close]`.
abbrev behind_bracket : Text → Text
behind_bracket [] = []
behind_bracket (c ∷ s) = s

unfoldable pub parse_event_title : Text → EventKind
parse_event_title title =
    if is_conductr_event title
    then elim (split_once b']' title) [
      | none ↦ unknown
      | some (before, behind) ↦ elim (strip_prefix (codes "conductr:") (behind_bracket before)) [
        | none ↦ unknown
        | some inner ↦ event_of inner (trim behind)
      ]
    ]
    else unknown

-- The first line that begins with a label, without the label.
abbrev labelled : Text → List Text → Option Text
labelled label [] = none
labelled label (line ∷ rest) =
    let later = labelled label rest in
    elim (strip_prefix label line) [ some val ↦ some (trim val) | none ↦ later ]

unfoldable pub extract_conductr_id : Text → Option Text
extract_conductr_id description = labelled (codes "conductr-id:") (lines description)

unfoldable pub extract_originally_scheduled : (Text → Option ℕ) → Text → Option ℕ
extract_originally_scheduled parse_from_rfc3339 description =
    elim (labelled (codes "originally-scheduled:") (lines description)) [
      | none ↦ none
      | some val ↦ parse_from_rfc3339 val
    ]

unfoldable pub identity_lines : (ℕ → Text) → Text → ℕ → Text
identity_lines to_rfc3339 conductr_id originally_scheduled =
    codes "conductr-id: "
    ++ (conductr_id ++ (codes "\noriginally-scheduled: " ++ to_rfc3339 originally_scheduled))

unfoldable pub overlaps : ℕ → ℕ → ℕ → ℕ → Bool
overlaps a_start a_end b_start b_end = ltb a_start b_end && ltb b_start a_end

unfoldable pub window_matches_tag : List Text → Option Text → Bool
window_matches_tag [] issue_tag = true
window_matches_tag (t ∷ tags) none = false
window_matches_tag (t ∷ tags) (some tag) =
    any (λ w. text_eq w tag || text_eq w (codes "*")) (t ∷ tags)
