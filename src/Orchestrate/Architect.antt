-- ===== src/Orchestrate/Architect.antt =====
-- crates/conductr-orchestrate/src/architect.rs: the complexity of an issue and the phrase that it
-- belongs to.
use conductr.Prelude.{
  ℕ, ◌+◌, Text, List, [], ◌∷◌, Option, none, some, ◌&&◌, ◌||◌, if◌then◌else◌, leb, codes, map,
  is_empty, strip_prefix, text_eq, to_ascii_lowercase, join,
}
use conductr.Prelude.Split.{split, nonempty}

pub data Complexity : Type 0 where
  xs_ s_ m_ l_ : Complexity

abbrev pub complexity_text : Complexity → Text
complexity_text xs_ = codes "XS"
complexity_text s_ = codes "S"
complexity_text m_ = codes "M"
complexity_text l_ = codes "L"

-- Letters other than ASCII's have no lower case in the labels that
-- are looked for.
unfoldable pub complexity_of_level : Text → Option Complexity
complexity_of_level level =
    if text_eq level (codes "xs")
    then some xs_
    else if text_eq level (codes "s")
    then some s_
    else if text_eq level (codes "m")
    then some m_
    else if text_eq level (codes "l")
    then some l_
    else none

abbrev level_of_label : Text → Option Complexity
level_of_label label = elim (strip_prefix (codes "complexity/") (to_ascii_lowercase label)) [
  | none ↦ none
  | some level ↦ complexity_of_level level
]

unfoldable pub complexity_for : List Text → Option Complexity → Complexity
complexity_for [] none = m_
complexity_for [] (some c) = c
complexity_for (label ∷ rest) arn = elim (level_of_label label) [
  | some c ↦ c
  | none ↦ complexity_for rest arn
]

abbrev slug_char : ℕ → ℕ
slug_char c =
    if (leb b'0' c && leb c b'9') || (leb b'a' c && leb c b'z')
    then c
    else if leb b'A' c && leb c b'Z'
    then c + 32
    else b'-'

abbrev first_part : List Text → Text
first_part [] = []
first_part (p ∷ rest) = p

unfoldable pub phrase_id_from_title : Text → Text
phrase_id_from_title title =
    let slug = map slug_char (first_part (split b':' title)) in
    let result = join (codes "-") (nonempty (split b'-' slug)) in
    if is_empty result then codes "phrase" else result
