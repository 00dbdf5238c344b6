-- ===== src/Cli/Examples.antt =====
-- A pattern for the sources of the crates, a cron expression for working hours, and a crontab with
-- one project's task.
use conductr.Prelude.{
  ℕ, [], ◌∷◌, List, Text, true, false, none, some, refl, codes, ◌≡◌, ◌↔◌, any, contains,
}
use conductr.Prelude.Result.{ok, ◌>>=◌}
use conductr.Prelude.Split.{split}
use conductr.Cli.Glob.{glob_match}
use conductr.Cli.Glob.Paths.{PathMatches, glob_match_iff}
use conductr.Prelude.{arith}
use conductr.Cli.Cron.Hours.{fires_at, fires_at-firing_hours}
use conductr.Cli.Cron.{
  firing_hours, Key, minute, hour, day, month, weekday, Entry, expand_part, expand_parts,
  expand_cron_field, expand_entries, expand_fields, field_specs, cron_to_start_calendar_intervals,
}
use conductr.Cli.Cron.Fields.{part_has, expand_cron_field-contains}
use conductr.Cli.Cron.Times.{values_fit, starts_at, fields_fit}
use conductr.Cli.Cron.Intervals.{cron_to_start_calendar_intervals-starts_at}
use conductr.Prelude.Decimal.{parse_u32, parse_u64}
use conductr.Cli.Crontab.{
  ConductrConfig, Host, World, merge, generate_lines, sync_crontab, remove, cron_line, task_command,
}
use conductr.Cli.Crontab.Sync.{merge-merge}
use conductr.Cli.Crontab.Blocks.{Block, theirs, ours}
use conductr.Cli.Crontab.Remove.{sync_crontab-remove}

abbrev sources : Text
sources = codes "crates/*/src/**/*.rs"

abbrev main_file : Text
main_file = codes "crates/conductr/src/main.rs"

glob_match_iff_example :
    (glob_match sources main_file ≡ true) ↔ PathMatches (split b'/' sources) (split b'/' main_file)
glob_match_iff_example = glob_match_iff sources main_file refl

expand_cron_field-contains_example :
    contains 10 (9 ∷ 10 ∷ 11 ∷ 20 ∷ []) ≡ any (part_has 0 23 10) (split b',' (codes "9-11,20"))
unfolding expand_cron_field expand_parts expand_part parse_u32 parse_u64
expand_cron_field-contains_example =
    expand_cron_field-contains (codes "9-11,20") 0 23 10 (9 ∷ 10 ∷ 11 ∷ 20 ∷ []) refl refl

abbrev noon : Key → ℕ
noon minute = 30
noon hour = 12
noon day = 1
noon month = 1
noon weekday = 1

abbrev on_days : List Entry
on_days =
    ((weekday, 5) ∷ (day, 1) ∷ (hour, 12) ∷ (minute, 30) ∷ [])
    ∷ ((weekday, 5) ∷ (day, 15) ∷ (hour, 12) ∷ (minute, 30) ∷ [])
    ∷ []

-- The first of the month, a Monday: that the weekday is no Friday does not matter.
cron_to_start_calendar_intervals-starts_at_example :
    starts_at noon on_days
    ≡ fields_fit noon (field_specs (codes "30") (codes "12") (codes "1,15") (codes "*") (codes "5"))
unfolding cron_to_start_calendar_intervals expand_fields expand_entries expand_cron_field
    expand_parts expand_part parse_u32 parse_u64
cron_to_start_calendar_intervals-starts_at_example =
    cron_to_start_calendar_intervals-starts_at (codes "30 12 1,15 * 5") (codes "30") (codes "12")
      (codes "1,15") (codes "*") (codes "5") noon on_days refl refl

starts_at_test : starts_at noon on_days ≡ true
starts_at_test = refl

abbrev foo : ConductrConfig
foo = record {
  project_tag = codes "foo";
  repo = some (codes "me/foo");
  cadence = (codes "idle", codes "0 3 * * *") ∷ (codes "orchestrate", codes "0 * * * *") ∷ [];
}

abbrev before : Text
before = codes "MAILTO=me\n# conductr-cron: bar-idle\n0 1 * * * true\n"

merge-merge_example :
    merge (merge before (generate_lines foo (codes "/log")) (codes "foo")) [] (codes "foo")
    ≡ merge before [] (codes "foo")
unfolding generate_lines cron_line task_command
merge-merge_example = merge-merge foo (codes "/log") before [] refl refl refl

abbrev willing : World
willing = record {
  takes = λ contents. true;
  saves = true;
  deletes = λ path. true;
  machine = codes "host";
  now = codes "2025-01-01T00:00:00Z";
}

-- The lines of another project, of the user, and an entry of the project itself.
abbrev blocks : List Block
blocks =
    theirs (codes "MAILTO=me")
    ∷ ours (codes "# conductr-cron: foo-idle") (codes "0 3 * * * old")
    ∷ theirs (codes "# conductr-cron: bar-idle")
    ∷ theirs (codes "0 1 * * * true")
    ∷ []

abbrev host : Host
host = record {
  crontab =
      codes
        "MAILTO=me\n# conductr-cron: foo-idle\n0 3 * * * old\n# conductr-cron: bar-idle\n0 1 * * * true\n";
  plists = [];
  local = none;
}

sync_crontab-remove_example :
    (sync_crontab willing foo (generate_lines foo (codes "/log")) (codes "/log") false host
      >>= remove willing false)
    ≡ ok (record host {
      crontab = codes "MAILTO=me\n# conductr-cron: bar-idle\n0 1 * * * true\n";
      local = none;
    })
unfolding generate_lines cron_line task_command
sync_crontab-remove_example =
    sync_crontab-remove willing foo (codes "/log") host blocks refl refl (λ contents. refl) refl
      refl refl refl refl refl

fires_at-firing_hours_example :
    fires_at 12 (firing_hours (codes "30 9,12 * * *"))
    ≡ values_fit 12 (expand_cron_field (codes "9,12") 0 23)
fires_at-firing_hours_example =
    fires_at-firing_hours (codes "30 9,12 * * *") (codes "30") (codes "9,12") (codes "*")
      (codes "*") (codes "*") 12 refl (omega arith)
