-- ===== src/Cli/Cron/Times.antt =====
-- The times that calendar entries and the fields of a cron expression stand for.
use conductr.Prelude.{
  ℕ, Text, List, [], ◌∷◌, Bool, true, false, not, if◌then◌else◌, ◌&&◌, ◌||◌, ◌==◌, any, contains,
  is_empty,
}
use conductr.Prelude.Result.{Result, ok, err}
use conductr.Cli.Cron.{Key, day, weekday, Entry, CronError, expand_cron_field}

-- Which keys are left out of account.
abbrev pub is_day : Key → Bool
is_day day = true
is_day _ = false

abbrev pub is_weekday : Key → Bool
is_weekday weekday = true
is_weekday _ = false

abbrev pub no_key : Key → Bool
no_key key = false

-- Each key of the entry that is not left out has the time's value. A time gives each key a
-- number; Sunday, which `launchd` numbers 0 and 7, the one that is written.
abbrev pub agrees : (Key → Bool) → (Key → ℕ) → Entry → Bool
agrees without time [] = true
agrees without time ((key, v) ∷ rest) = (without key || v == time key) && agrees without time rest

abbrev pub has_key : (Key → Bool) → Entry → Bool
has_key which e = any (λ (key, v). which key) e

-- What `launchd` documents of an entry: it stands for the times at which each of its keys has the
-- value given, and a key that is absent is a wildcard; but of Day and Weekday, where both are given,
-- one suffices. Without an entry, every time is meant.
abbrev pub fits : (Key → ℕ) → Entry → Bool
fits time e =
    if has_key is_day e && has_key is_weekday e
    then agrees is_weekday time e || agrees is_day time e
    else agrees no_key time e

abbrev pub starts_at : (Key → ℕ) → List Entry → Bool
starts_at time entries = is_empty entries || any (fits time) entries

-- Whether a field stands for a number; one that has no values stands for all.
abbrev pub values_fit : ℕ → Result (List ℕ) CronError → Bool
values_fit n (ok vals) = is_empty vals || contains n vals
values_fit n (err e) = false

abbrev pub has_values : Result (List ℕ) CronError → Bool
has_values (ok vals) = not (is_empty vals)
has_values (err e) = false

-- Each field that is not left out stands for the time's number of its key.
abbrev pub fields_agree : (Key → Bool) → (Key → ℕ) → List (Key × Text × ℕ × ℕ) → Bool
fields_agree without time [] = true
fields_agree without time ((key, field, min, max) ∷ rest) =
    (without key || values_fit (time key) (expand_cron_field field min max))
    && fields_agree without time rest

abbrev pub restricts : (Key → Bool) → List (Key × Text × ℕ × ℕ) → Bool
restricts which [] = false
restricts which ((key, field, min, max) ∷ rest) =
    (which key && has_values (expand_cron_field field min max)) || restricts which rest

-- Whether the fields stand for a time: all of them do; but of the day and the weekday, where both
-- have values, one suffices.
abbrev pub fields_fit : (Key → ℕ) → List (Key × Text × ℕ × ℕ) → Bool
fields_fit time fields =
    if restricts is_day fields && restricts is_weekday fields
    then fields_agree is_weekday time fields || fields_agree is_day time fields
    else fields_agree no_key time fields
