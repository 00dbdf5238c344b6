-- ===== src/Cli/Crontab.antt =====
-- crates/conductr/src/cadence.rs: the host's crontab and the file `.conductr-local`, as `cadence sync`
-- and `cadence remove` change them.
pub mod Lines
pub mod Sync
pub mod Entries
pub mod Blocks
pub mod Remove
use conductr.Prelude.{
  ℕ, Text, List, [], ◌∷◌, ◌++◌, Option, none, some, Bool, true, false, if◌then◌else◌, codes,
  text_eq, starts_with, join, map, filter, not, any,
}
use conductr.Prelude.Result.{Result, ok, err, ◌>>=◌}
use conductr.Prelude.Split.{lines}

-- `ConductrConfig`; the map `cadence` as its entries, by ascending task.
pub record ConductrConfig : Type 0 where
  pub project_tag : Text
  pub repo : Option Text
  pub cadence : List (Text × Text)

pub record LocalSchedule : Type 0 where
  pub task : Text
  pub mechanism : Text
  pub command : Text
  pub cadence : Text
  pub installed_at : Text
  pub log_stdout : Text
  pub log_stderr : Text
  pub marker : Option Text
  pub label : Option Text
  pub plist : Option Text

pub record LocalFile : Type 0 where
  pub machine : Text
  pub generated_at : Text
  pub repo : Option Text
  pub schedule : List LocalSchedule

abbrev pub marker_prefix : Text
marker_prefix = codes "# conductr-cron:"

abbrev repo_flag : Option Text → Text
repo_flag none = []
repo_flag (some r) = codes " --repo " ++ r

unfoldable pub task_command : Text → Text → Option Text → Text
task_command task project_tag repo =
    if text_eq task (codes "orchestrate")
    then codes "conductr pod ensure-session "
      ++ (project_tag
          ++ (codes " --then \""
              ++ (codes "conductr orchestrate"
                  ++ (repo_flag repo ++ (codes " --once" ++ codes "\"")))))
    else if text_eq task (codes "idle")
    then codes "conductr pod ensure-session " ++ (project_tag ++ codes " --then \"/idle\"")
    else codes "conductr " ++ task

-- `# conductr-cron: <project_tag>-`, with which the markers of a project begin.
abbrev pub our_prefix : Text → Text
our_prefix project_tag = marker_prefix ++ (codes " " ++ (project_tag ++ codes "-"))

unfoldable pub cron_line : ConductrConfig → Text → Text → Text → Text
cron_line cfg log_dir task schedule =
    schedule
    ++ (codes " bash -lc '"
        ++ (task_command task cfg.project_tag cfg.repo
            ++ (codes "' >> " ++ (log_dir ++ (codes "/" ++ (task ++ codes ".log 2>&1"))))))

abbrev pub generated : ConductrConfig → Text → Text × Text → Text × Text
generated cfg log_dir entry =
    (our_prefix cfg.project_tag ++ entry.0, cron_line cfg log_dir entry.0 entry.1)

unfoldable pub generate_lines : ConductrConfig → Text → List (Text × Text)
generate_lines cfg log_dir = map (generated cfg log_dir) cfg.cadence

-- The loop of `merge` and of `remove_crontab_entry`, from `skip_next` on: a line of which `ours` holds
-- is left out, and the line after it.
abbrev pub drop_blocks : (Text → Bool) → Bool → List Text → List Text
drop_blocks ours skip_next [] = []
drop_blocks ours true (line ∷ rest) = drop_blocks ours false rest
drop_blocks ours false (line ∷ rest) =
    let kept = drop_blocks ours false rest in
    let dropped = drop_blocks ours true rest in if ours line then dropped else line ∷ kept

abbrev pub pair_lines : List (Text × Text) → List Text
pair_lines [] = []
pair_lines ((marker, line) ∷ rest) = marker ∷ line ∷ pair_lines rest

abbrev pub with_newlines : List Text → Text
with_newlines out = join (codes "\n") out ++ codes "\n"

unfoldable pub merge : Text → List (Text × Text) → Text → Text
merge current new project_tag =
    with_newlines
      (drop_blocks (starts_with (our_prefix project_tag)) false (lines current) ++ pair_lines new)

-- What the two commands change: the crontab, the property lists under `~/Library/LaunchAgents`, by
-- path, and the file `.conductr-local`.
pub record Host : Type 0 where
  pub crontab : Text
  pub plists : List Text
  pub local : Option LocalFile

pub data CadenceError : Type 0 where
  crontab_rejected file_not_saved file_not_deleted : CadenceError

-- What lies outside: whether `crontab -` takes a text, whether a file can be written or deleted, and
-- the machine's name and the time.
pub record World : Type 0 where
  pub takes : Text → Bool
  pub saves : Bool
  pub deletes : Text → Bool
  pub machine : Text
  pub now : Text

abbrev pub local_schedule : World → ConductrConfig → Text → Text × Text → LocalSchedule
local_schedule world cfg log_dir entry = record {
  task = entry.0;
  mechanism = codes "crontab";
  command = task_command entry.0 cfg.project_tag cfg.repo;
  cadence = entry.1;
  installed_at = world.now;
  log_stdout = log_dir ++ (codes "/" ++ (entry.0 ++ codes ".log"));
  log_stderr = log_dir ++ (codes "/" ++ (entry.0 ++ codes ".log"));
  marker = some (our_prefix cfg.project_tag ++ entry.0);
  label = none;
  plist = none;
}

unfoldable pub local_file : World → ConductrConfig → Text → LocalFile
local_file world cfg log_dir = record {
  machine = world.machine;
  generated_at = world.now;
  repo = cfg.repo;
  schedule = map (local_schedule world cfg log_dir) cfg.cadence;
}

abbrev pub write_crontab : World → Text → Host → Result Host CadenceError
write_crontab world contents host =
    if world.takes contents then ok (record host { crontab = contents }) else err crontab_rejected

unfoldable pub sync_crontab :
    World → ConductrConfig → List (Text × Text) → Text → Bool → Host → Result Host CadenceError
sync_crontab world cfg new_lines log_dir dry_run host =
    if dry_run
    then ok host
    else write_crontab world (merge host.crontab new_lines cfg.project_tag) host >>= (λ written.
      if world.saves
      then ok (record written { local = some (local_file world cfg log_dir) })
      else err file_not_saved)

unfoldable pub remove_crontab_entry : World → Text → Bool → Host → Result Host CadenceError
remove_crontab_entry world marker dry_run host =
    let content =
      with_newlines (drop_blocks (λ line. text_eq line marker) false (lines host.crontab)) in
    if dry_run then ok host else write_crontab world content host

unfoldable pub remove_launchd_entry : World → Text → Bool → Host → Result Host CadenceError
remove_launchd_entry world plist dry_run host =
    if dry_run
    then ok host
    else if any (text_eq plist) host.plists
    then (if world.deletes plist
        then ok (record host { plists = filter (λ p. not (text_eq plist p)) host.plists })
        else err file_not_deleted)
    else ok host

abbrev pub remove_crontab_marker : World → Option Text → Bool → Host → Result Host CadenceError
remove_crontab_marker world none dry_run host = ok host
remove_crontab_marker world (some marker) dry_run host =
    remove_crontab_entry world marker dry_run host

abbrev pub remove_agent : World → Option Text → Option Text → Bool → Host → Result Host CadenceError
remove_agent world (some plist) (some label) dry_run host =
    remove_launchd_entry world plist dry_run host
remove_agent world plist label dry_run host = ok host

unfoldable pub remove_schedule : World → Bool → LocalSchedule → Host → Result Host CadenceError
remove_schedule world dry_run sched host =
    if text_eq sched.mechanism (codes "crontab")
    then remove_crontab_marker world sched.marker dry_run host
    else if text_eq sched.mechanism (codes "launchd")
    then remove_agent world sched.plist sched.label dry_run host
    else ok host

unfoldable pub remove_schedules :
    World → Bool → List LocalSchedule → Host → Result Host CadenceError
remove_schedules world dry_run [] host = ok host
remove_schedules world dry_run (sched ∷ rest) host =
    remove_schedule world dry_run sched host >>= remove_schedules world dry_run rest

abbrev pub delete_local : World → Host → Result Host CadenceError
delete_local world host =
    if world.deletes (codes ".conductr-local")
    then ok (record host { local = none })
    else err file_not_deleted

-- `remove`, for a `.conductr-local` that can be read.
unfoldable pub remove : World → Bool → Host → Result Host CadenceError
remove world dry_run host = elim host.local [
  | none ↦ ok host
  | some file ↦
      remove_schedules world dry_run file.schedule host
      >>= (λ (removed : Host). if dry_run then ok removed else delete_local world removed)
]
