-- ===== src/Schedule/Pattern.antt =====
-- crates/conductr-schedule/src/pattern.rs: a pattern of bars, whose beats may be split into smaller
-- ones, its check and its leaves. Lengths and offsets are `u32`s, counted in 64th notes.
pub mod Leaves
use conductr.Prelude.{
  ℕ, zero, suc, ◌+◌, Text, List, [], ◌∷◌, ◌++◌, Bool, true, false, if◌then◌else◌, ◌==◌, map,
}
use conductr.Prelude.Result.{Result, ok, err, ◌>>◌}
use conductr.Schedule.Notation.{NoteValue, TimeSignature, Tempo, in_64ths, bar_in_64ths, wrap}

-- `Beat` with its `BeatContent`, and a `Vec` of beats.
mutual
  pub data Beat : Type 0 where
    tag : NoteValue → Text → Beat
    subdivided : NoteValue → Beats → Beat

  pub data Beats : Type 0 where
    no_beats : Beats
    then_beat : Beat → Beats → Beats

pub record Bar : Type 0 where
  pub time_signature : TimeSignature
  pub beats : Beats

pub record Pattern : Type 0 where
  pub time_signature : TimeSignature
  pub tempo : Tempo
  pub bars : List Bar

pub data PatternError : Type 0 where
  bar_length_mismatch : (bar expected actual : ℕ) → PatternError
  subdivision_mismatch : (parent : NoteValue) (expected actual : ℕ) → PatternError

abbrev pub beat_value : Beat → NoteValue
beat_value (tag v t) = v
beat_value (subdivided v children) = v

-- `Beat::in_64ths`.
abbrev pub beat_64ths : Beat → ℕ
beat_64ths b = in_64ths (beat_value b)

-- `iter().map(|b| b.in_64ths()).sum()`, from `sum` on.
abbrev pub sum_from : ℕ → Beats → ℕ
sum_from sum no_beats = sum
sum_from sum (then_beat b rest) = sum_from (wrap (sum + beat_64ths b)) rest

-- `Beat::validate`, and its loop over the children.
unfoldable mutual
  pub validate_beat : Beat → Result (Unit {0}) PatternError
  validate_beat (tag v t) = ok tt
  validate_beat (subdivided v children) =
      let inner = validate_beats children in
      if sum_from 0 children == in_64ths v
      then inner
      else err (subdivision_mismatch v (in_64ths v) (sum_from 0 children))

  pub validate_beats : Beats → Result (Unit {0}) PatternError
  validate_beats no_beats = ok tt
  validate_beats (then_beat b rest) = validate_beat b >> validate_beats rest

pub record LeafInterval : Type 0 where
  pub offset_64ths : ℕ
  pub length_64ths : ℕ
  pub value : NoteValue
  pub tag_text : Text

-- What `Beat::walk_leaves` pushes, and its loop over the children.
unfoldable mutual
  pub walk_leaves : Beat → ℕ → List LeafInterval
  walk_leaves (tag v t) offset =
      record { offset_64ths = offset; length_64ths = in_64ths v; value = v; tag_text = t } ∷ []
  walk_leaves (subdivided v children) offset = walk_children children offset

  pub walk_children : Beats → ℕ → List LeafInterval
  walk_children no_beats offset = []
  walk_children (then_beat b rest) offset =
      walk_leaves b offset ++ walk_children rest (wrap (offset + beat_64ths b))

unfoldable pub validate_at : Bar → ℕ → Result (Unit {0}) PatternError
validate_at bar index =
    if sum_from 0 bar.beats == bar_in_64ths bar.time_signature
    then validate_beats bar.beats
    else err (bar_length_mismatch index (bar_in_64ths bar.time_signature) (sum_from 0 bar.beats))

unfoldable pub validate_bars : ℕ → List Bar → Result (Unit {0}) PatternError
validate_bars i [] = ok tt
validate_bars i (bar ∷ rest) = validate_at bar i >> validate_bars (i + 1) rest

unfoldable pub validate : Pattern → Result (Unit {0}) PatternError
validate pattern = validate_bars 0 pattern.bars

-- A leaf within its bar, as it stands in the pattern.
abbrev pub shift : ℕ → LeafInterval → LeafInterval
shift bar_offset li = record li { offset_64ths = wrap (bar_offset + li.offset_64ths) }

-- The loop over the beats of one bar.
unfoldable pub leaves_of_beats : ℕ → ℕ → Beats → List LeafInterval
leaves_of_beats bar_offset beat_offset no_beats = []
leaves_of_beats bar_offset beat_offset (then_beat b rest) =
    map (shift bar_offset) (walk_leaves b beat_offset)
    ++ leaves_of_beats bar_offset (wrap (beat_offset + beat_64ths b)) rest

unfoldable pub leaves_of_bars : ℕ → List Bar → List LeafInterval
leaves_of_bars bar_offset [] = []
leaves_of_bars bar_offset (bar ∷ rest) =
    leaves_of_beats bar_offset 0 bar.beats
    ++ leaves_of_bars (wrap (bar_offset + bar_in_64ths bar.time_signature)) rest

unfoldable pub leaves : Pattern → List LeafInterval
leaves pattern = leaves_of_bars 0 pattern.bars
