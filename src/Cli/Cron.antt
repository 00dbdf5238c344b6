-- ===== src/Cli/Cron.antt =====
-- crates/conductr/src/cadence.rs: cron expressions, the hours at which they fire, and the calendar
-- entries that launchd is given for them.
pub mod Fields
pub mod Times
pub mod Intervals
pub mod Hours
use conductr.Prelude.{
  ℕ, zero, suc, ◌+◌, ◌-◌, ◌≤◌, Text, List, [], ◌∷◌, ◌++◌, Option, none, some, Bool, true, false,
  not, ◌&&◌, ◌||◌, if◌then◌else◌, ◌==◌, leb, ltb, text_eq, codes, strip_prefix, map, is_empty,
  flat_map, length,
}
use conductr.Prelude.Decimal.{parse_u32}
use conductr.Prelude.Result.{Result, ok, err, ◌>>=◌}
use conductr.Prelude.Split.{split, split_once, split_whitespace}

pub data CronError : Type 0 where
  invalid_step zero_step invalid_range_start invalid_range_end invalid_value :
      (part : Text) → CronError
  not_five_fields : (cron : Text) → CronError

-- `count` numbers from `start` on.
abbrev pub range : ℕ → ℕ → List ℕ
range start zero = []
range start (suc count) = start ∷ range (start + 1) count

-- `start..=end`.
abbrev pub range_inclusive : ℕ → ℕ → List ℕ
range_inclusive start end = range start (end + 1 - start)

-- `step_by(k + 1)`: the elements at distance `k + 1`, the first after `skip` others.
abbrev pub step_from : ℕ → ℕ → List ℕ → List ℕ
step_from k skip [] = []
step_from k zero (x ∷ xs) = x ∷ step_from k k xs
step_from k (suc skip) (x ∷ xs) = step_from k skip xs

abbrev or_err {ℓ κ} : {A : Type ℓ} {E : Type κ} → E → Option A → Result A E
or_err e none = err e
or_err e (some a) = ok a

abbrev stepped : ℕ → ℕ → Text → ℕ → Result (List ℕ) CronError
stepped min max part zero = err (zero_step part)
stepped min max part (suc k) = ok (step_from k 0 (range_inclusive min max))

-- One part between commas.
unfoldable pub expand_part : ℕ → ℕ → Text → Result (List ℕ) CronError
expand_part min max part = elim (strip_prefix (codes "*/") part) [
  | some step_s ↦ or_err (invalid_step part) (parse_u32 step_s) >>= stepped min max part
  | none ↦ elim (split_once b'-' part) [
    | some (start_s, end_s) ↦ or_err (invalid_range_start part) (parse_u32 start_s) >>= (λ start.
        or_err (invalid_range_end part) (parse_u32 end_s)
        >>= (λ end. ok (range_inclusive start end)))
    | none ↦ or_err (invalid_value part) (parse_u32 part) >>= (λ v. ok (v ∷ []))
  ]
]

-- The loop over the parts.
unfoldable pub expand_parts : ℕ → ℕ → List Text → Result (List ℕ) CronError
expand_parts min max [] = ok []
expand_parts min max (part ∷ rest) =
    expand_part min max part
    >>= (λ first. expand_parts min max rest >>= (λ others. ok (first ++ others)))

unfoldable pub expand_cron_field : Text → ℕ → ℕ → Result (List ℕ) CronError
expand_cron_field s min max =
    if text_eq s (codes "*") then ok [] else expand_parts min max (split b',' s)

-- `fires[h] = true`, for an `h` within the list.
abbrev pub set_true : ℕ → List Bool → List Bool
set_true h [] = []
set_true zero (b ∷ bs) = true ∷ bs
set_true (suc h) (b ∷ bs) = b ∷ set_true h bs

unfoldable pub set_hours : List ℕ → List Bool → List Bool
set_hours [] fires = fires
set_hours (h ∷ hours) fires = set_hours hours (if ltb h 24 then set_true h fires else fires)

abbrev pub repeat_false : ℕ → List Bool
repeat_false zero = []
repeat_false (suc n) = false ∷ repeat_false n

unfoldable pub hours_of : Result (List ℕ) CronError → List Bool
hours_of (err e) = repeat_false 24
hours_of (ok v) = set_hours (if is_empty v then range 0 24 else v) (repeat_false 24)

unfoldable pub firing_hours : Text → List Bool
firing_hours cron = elim (split_whitespace cron) [
  | minute ∷ hour ∷ day ∷ month ∷ weekday ∷ [] ↦ hours_of (expand_cron_field hour 0 23)
  | _ ↦ repeat_false 24
]

-- The keys of an entry. In the program an entry is a map from the keys' names to numbers; every key
-- is inserted at most once.
pub data Key : Type 0 where
  minute hour day month weekday : Key

abbrev pub Entry : Type 0
Entry = List (Key × ℕ)

-- The body of the loop over the fields: no values, no key.
unfoldable pub expand_entries : Key → List ℕ → List Entry → List Entry
expand_entries key vals entries =
    if is_empty vals
    then entries
    else flat_map (λ (e : Entry). map (λ v. (key, v) ∷ e) vals) entries

unfoldable pub expand_fields :
    List (Key × Text × ℕ × ℕ) → List Entry → Result (List Entry) CronError
expand_fields [] entries = ok entries
expand_fields ((key, field, min, max) ∷ rest) entries =
    expand_cron_field field min max
    >>= (λ vals. expand_fields rest (expand_entries key vals entries))

abbrev pub drop_wild : List Entry → List Entry
drop_wild ([] ∷ []) = []
drop_wild entries = entries

abbrev pub field_specs : Text → Text → Text → Text → Text → List (Key × Text × ℕ × ℕ)
field_specs a b c d e =
    (minute, a, 0, 59)
    ∷ (hour, b, 0, 23)
    ∷ (day, c, 1, 31)
    ∷ (month, d, 1, 12)
    ∷ (weekday, e, 0, 6)
    ∷ []

unfoldable pub cron_to_start_calendar_intervals : Text → Result (List Entry) CronError
cron_to_start_calendar_intervals cron = elim (split_whitespace cron) [
  | a ∷ b ∷ c ∷ d ∷ e ∷ [] ↦
      expand_fields (field_specs a b c d e) ([] ∷ []) >>= (λ entries. ok (drop_wild entries))
  | _ ↦ err (not_five_fields cron)
]
