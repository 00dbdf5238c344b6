-- ===== src/Schedule/Examples.antt =====
-- A bar of four quarters, the second split into an eighth and two sixteenths, and a plan of three
-- tickets.
use conductr.Prelude.{[], ◌∷◌, some, ◌≡◌, refl, codes}
use conductr.Prelude.{Text, List, arith}
use conductr.Prelude.Result.{err}
use conductr.Prelude.{false}
use conductr.Prelude.Result.{ok}
use conductr.Prelude.Decimal.{parse_u64}
use conductr.Schedule.Duration.{parse_duration, duration_from}
use conductr.Schedule.Dsl.{duration_text}
use conductr.Schedule.Dsl.Times.{parse_duration-duration_text}
use conductr.Schedule.Parser.{
  parse, parse_bars, strip_comment, parse_bar_beats, split_top_level, split_from, parse_beat,
  parse_beat_from, check_lengths, from_bar_secs,
}
use conductr.Schedule.Parser.Fuel.{is_panic, is_panic-parse_beat}
use conductr.Schedule.FromPlan.{Plan, PlanItem, validate_plan}
use conductr.Schedule.FromPlan.Check.{Verdict, validate_plan-Verdict}
use conductr.Schedule.PlanPattern.{
  edges_from, batch_indices, plan_to_pattern, topo_batches, run_batches, run_batch, release,
}
use conductr.Schedule.PlanPattern.Layers.{AreLayers, batch_indices-AreLayers}
use conductr.Schedule.PlanPattern.Pad.{validate-plan_to_pattern}
use conductr.Schedule.Notation.{
  NoteValue, half, quarter, eighth, sixteenth, TimeSignature, from_letter,
}
use conductr.Schedule.Pattern.{
  validate_beats, bar_length_mismatch, Beat, tag, subdivided, no_beats, then_beat, Pattern,
  validate, validate_bars, validate_at, validate_beat, leaves,
}
use conductr.Schedule.Pattern.Leaves.{follow, bars_from, follow-leaves}

abbrev split : Beat
split = subdivided quarter (
    then_beat (tag eighth (codes "work")) (
      then_beat (tag sixteenth (codes "rest")) (then_beat (tag sixteenth (codes "work")) no_beats)))

abbrev common : TimeSignature
common = record { beats_per_bar = 4; beat_unit = quarter }

abbrev day : Pattern
day = record {
  time_signature = common;
  tempo = record { quarter_seconds = 3600 };
  bars =
      record {
        time_signature = common;
        beats = then_beat (tag quarter (codes "sleep")) (
            then_beat split (
              then_beat (tag quarter (codes "wake"))
                (then_beat (tag quarter (codes "rest")) no_beats)));
      }
      ∷ [];
}

follow-leaves_example : follow 0 (leaves day) ≡ some (bars_from 0 day.bars)
unfolding validate validate_bars validate_at validate_beat
follow-leaves_example = follow-leaves day refl

-- Three tickets, two of which wait for the first.
abbrev item_of : Text → Text → List Text → NoteValue → PlanItem
item_of id title deps estimate = record { id = id; title = title; deps = deps; estimate = estimate }

abbrev plan : Plan
plan = record {
  items =
      item_of (codes "T1") (codes "Types") [] quarter
      ∷ item_of (codes "T2") (codes "Parser") (codes "T1" ∷ []) quarter
      ∷ item_of (codes "T3") (codes "Printer") (codes "T1" ∷ []) eighth
      ∷ [];
}

batch_indices-AreLayers_example :
    AreLayers (edges_from plan.items 0 plan.items) 3 [] (batch_indices plan.items)
batch_indices-AreLayers_example = batch_indices-AreLayers plan.items

validate-plan_to_pattern_example :
    validate (plan_to_pattern plan) ≡ err (bar_length_mismatch 0 32 24)
unfolding topo_batches batch_indices run_batches run_batch release
validate-plan_to_pattern_example = validate-plan_to_pattern plan (omega arith)

validate_plan-Verdict_example : Verdict plan.items (validate_plan plan.items)
validate_plan-Verdict_example = validate_plan-Verdict plan.items

parse_duration-duration_text_example : parse_duration (duration_text 5430) 1 ≡ ok 5400
parse_duration-duration_text_example = parse_duration-duration_text 5430 1 (omega arith)

is_panic-parse_beat_example : is_panic (parse_beat (codes "work:q[a:e,b:s[c:t,d:t]]") 1) ≡ false
is_panic-parse_beat_example = is_panic-parse_beat (codes "work:q[a:e,b:s[c:t,d:t]]") 1

parse_test :
    parse (codes "bar_duration 1h30m # a bar\n\n| work:h | rest:h[a:q,b:q] |\n")
    ≡ ok (record {
      time_signature = common;
      tempo = record { quarter_seconds = 1350 };
      bars =
          record {
            time_signature = common;
            beats = then_beat (tag half (codes "work")) (
                then_beat
                  (subdivided half (
                    then_beat
                      (tag quarter (codes "a"))
                      (then_beat (tag quarter (codes "b")) no_beats)))
                  no_beats);
          }
          ∷ [];
    })
unfolding parse parse_bars strip_comment parse_duration duration_from parse_bar_beats
    split_top_level split_from parse_beat parse_beat_from check_lengths from_bar_secs from_letter
    validate validate_bars validate_at validate_beat validate_beats parse_u64
parse_test = refl
