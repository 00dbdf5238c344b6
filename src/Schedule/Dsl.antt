-- ===== src/Schedule/Dsl.antt =====
-- crates/conductr-schedule/src/from_plan.rs: the text of a pattern.
pub mod Times
use conductr.Prelude.{
  ℕ, ◌*◌, ◌/◌, ◌%◌, ◌^◌, Text, List, [], ◌∷◌, ◌++◌, if◌then◌else◌, ◌==◌, codes, join, flat_map,
}
use conductr.Prelude.Decimal.{show_nat}
use conductr.Schedule.Notation.{letter, bar_in_64ths}
use conductr.Schedule.Pattern.{Beat, tag, subdivided, Beats, no_beats, then_beat, Bar, Pattern}

-- The tag that a subdivided beat is written with: that of its first child, which is a tag.
abbrev outer_tag : Beats → Text
outer_tag (then_beat (tag v t) rest) = t
outer_tag _ = codes "beat"

unfoldable mutual
  pub beat_to_dsl : Beat → Text
  beat_to_dsl (tag v t) = t ++ (codes ":" ++ (letter v ∷ []))
  beat_to_dsl (subdivided v children) =
      outer_tag children
      ++ (codes ":"
          ++ (letter v ∷ (codes "[" ++ (join (codes ",") (beats_to_dsl children) ++ codes "]"))))

  pub beats_to_dsl : Beats → List Text
  beats_to_dsl no_beats = []
  beats_to_dsl (then_beat b rest) = beat_to_dsl b ∷ beats_to_dsl rest

-- Hours and minutes; the seconds are left out.
unfoldable pub duration_text : ℕ → Text
duration_text bar_secs =
    let h = bar_secs / 3600 in
    let m = bar_secs % 3600 / 60 in
    if m == 0
    then show_nat h ++ codes "h"
    else if h == 0
    then show_nat m ++ codes "m"
    else show_nat h ++ (codes "h" ++ (show_nat m ++ codes "m"))

-- A product that does not fit into a `u64` wraps.
abbrev pub bar_secs_of : Pattern → ℕ
bar_secs_of pattern =
    pattern.tempo.quarter_seconds * bar_in_64ths pattern.time_signature % 2 ^ 64 / 16

abbrev bar_line : Bar → Text
bar_line bar =
    codes "| " ++ (flat_map (λ t. t ++ codes " | ") (beats_to_dsl bar.beats) ++ codes "\n")

unfoldable pub pattern_to_dsl : Pattern → Text
pattern_to_dsl pattern =
    codes "bar_duration "
    ++ (duration_text (bar_secs_of pattern) ++ (codes "\n\n" ++ flat_map bar_line pattern.bars))
