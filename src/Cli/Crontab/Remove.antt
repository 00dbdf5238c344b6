-- ===== src/Cli/Crontab/Remove.antt =====
-- What `cadence remove` leaves of what `cadence sync` wrote.
use conductr.Prelude.{
  Text, List, [], ◌∷◌, ◌++◌, map, append-nil, none, some, true, false, not, all, contains, codes,
  starts_with, text_eq, ◌≡◌, refl, sym, ◌∙◌, ap, arith,
}
use conductr.Prelude.Result.{Result, ok, ◌>>=◌}
use conductr.Prelude.Split.{lines}
use conductr.Cli.Crontab.{
  ConductrConfig, Host, World, CadenceError, our_prefix, cron_line, generated, generate_lines,
  drop_blocks, pair_lines, with_newlines, merge, local_file, local_schedule, sync_crontab,
  remove_crontab_entry, remove_schedule, remove_schedules, remove, delete_local,
}
use conductr.Prelude.Breaks.{is_line, all-is_line-lines}
use conductr.Cli.Crontab.Lines.{all-drop_blocks, all-not-drop_blocks}
use conductr.Cli.Crontab.Sync.{are_lines, others, lines-merged}
use conductr.Cli.Crontab.Entries.{
  all-text_eq_other, all-pair_lines_other, drop_entry, are_lines-rest, no_line_ours-rest,
  distinct_tasks-rest, distinct_tasks, no_line_ours,
}
use conductr.Cli.Crontab.Blocks.{Block, lines_of, their_lines, are_cut, merge_none}

remove_crontab_entry-lines :
    (world : World) (marker : Text) (host : Host) (text left : List Text)
    → ((contents : Text) → world.takes contents ≡ true)
    → lines host.crontab ≡ text
    → drop_blocks (λ line. text_eq line marker) false text ≡ left
    → remove_crontab_entry world marker false host
      ≡ ok (record host { crontab = with_newlines left })
unfolding remove_crontab_entry
remove_crontab_entry-lines world marker host text left t e d =
    let content : drop_blocks (λ line. text_eq line marker) false (lines host.crontab) ≡ left =
      ap (drop_blocks (λ line. text_eq line marker) false) e ∙ d in
    rw content (rw (t (with_newlines left)) refl)

-- What `remove` does with the schedules that stand for the entries left, one by one.
remove_schedules-entries :
    (world : World) (cfg : ConductrConfig) (log_dir : Text) (front : List Text) (host : Host)
    (entries : List (Text × Text))
    → ((contents : Text) → world.takes contents ≡ true)
    → all is_line front ≡ true
    → all (λ line. not (starts_with (our_prefix cfg.project_tag) line)) front ≡ true
    → are_lines (map (generated cfg log_dir) entries) ≡ true
    → no_line_ours (starts_with (our_prefix cfg.project_tag)) (map (generated cfg log_dir) entries)
      ≡ true
    → distinct_tasks entries ≡ true
    → remove_schedules world false (map (local_schedule world cfg log_dir) entries) (record host {
      crontab = with_newlines (front ++ pair_lines (map (generated cfg log_dir) entries));
    })
      ≡ ok (record host { crontab = with_newlines front })
unfolding remove_schedules remove_schedule
remove_schedules-entries world cfg log_dir front host [] t f o l n d =
    ap (λ (rest : List Text). ok (record host { crontab = with_newlines rest })) (append-nil front)
remove_schedules-entries world cfg log_dir front host ((task, schedule) ∷ rest) t f o l n d =
    let marker = our_prefix cfg.project_tag ++ task in
    let line = cron_line cfg log_dir task schedule in
    let back = pair_lines (map (generated cfg log_dir) rest) in
    let pairs = map (generated cfg log_dir) rest in
    let l' = are_lines-rest (marker, line) pairs l in
    let n' = no_line_ours-rest (starts_with (our_prefix cfg.project_tag)) (marker, line) pairs n in
    let d' = distinct_tasks-rest (task, schedule) rest d in
    let before : Host = record host { crontab = with_newlines (front ++ (marker ∷ line ∷ back)) } in
    ap
      (λ (removed : Result Host CadenceError).
        removed >>= remove_schedules world false (map (local_schedule world cfg log_dir) rest))
      (remove_crontab_entry-lines world marker before (front ++ (marker ∷ line ∷ back))
        (front ++ back) t (lines-merged front marker line (map (generated cfg log_dir) rest) f l)
        (drop_entry marker line front back
          (all-text_eq_other (our_prefix cfg.project_tag) task front o)
          (all-pair_lines_other cfg log_dir task rest d'.0 n')))
    ∙ remove_schedules-entries world cfg log_dir front host rest t f o l' n' d'.1

sync_crontab-written :
    (world : World) (cfg : ConductrConfig) (new : List (Text × Text)) (log_dir : Text) (host : Host)
    → world.takes (merge host.crontab new cfg.project_tag) ≡ true
    → world.saves ≡ true
    → sync_crontab world cfg new log_dir false host
      ≡ ok (record host {
        crontab = merge host.crontab new cfg.project_tag;
        local = some (local_file world cfg log_dir);
      })
unfolding sync_crontab
sync_crontab-written world cfg new log_dir host t s = ground arith

delete_local_ok :
    (world : World) (host : Host)
    → world.deletes (codes ".conductr-local") ≡ true
    → delete_local world host ≡ ok (record host { local = none })
delete_local_ok world host x = ground arith

-- Syncing and removing leave what merging nothing into the first crontab leaves.
sync_crontab-remove-merge :
    (world : World) (cfg : ConductrConfig) (log_dir : Text) (host : Host)
    → ((contents : Text) → world.takes contents ≡ true)
    → world.saves ≡ true
    → world.deletes (codes ".conductr-local") ≡ true
    → contains 13 host.crontab ≡ false
    → are_lines (generate_lines cfg log_dir) ≡ true
    → no_line_ours (starts_with (our_prefix cfg.project_tag)) (generate_lines cfg log_dir) ≡ true
    → distinct_tasks cfg.cadence ≡ true
    → (sync_crontab world cfg (generate_lines cfg log_dir) log_dir false host
        >>= remove world false)
      ≡ ok (record host { crontab = merge host.crontab [] cfg.project_tag; local = none })
unfolding remove generate_lines local_file merge
sync_crontab-remove-merge world cfg log_dir host t s x c l n d =
    let front = others cfg.project_tag host.crontab in
    let ours = starts_with (our_prefix cfg.project_tag) in
    let host' : Host = record host { local = some (local_file world cfg log_dir) } in
    ap (λ (r : Result Host CadenceError). r >>= remove world false)
      (sync_crontab-written world cfg (generate_lines cfg log_dir) log_dir host
        (t (merge host.crontab (generate_lines cfg log_dir) cfg.project_tag)) s)
    ∙ (ap (λ (r : Result Host CadenceError). r >>= (λ (removed : Host). delete_local world removed))
          (remove_schedules-entries world cfg log_dir front host' cfg.cadence t
            (all-drop_blocks is_line ours false (lines host.crontab)
              (all-is_line-lines host.crontab c))
            (all-not-drop_blocks ours false (lines host.crontab)) l n d)
        ∙ (delete_local_ok world (record host' { crontab = with_newlines front }) x
            ∙ ap
                (λ (rest : List Text).
                  ok (record host { crontab = with_newlines rest; local = none }))
                (sym (append-nil front))))

-- Let the lines of the crontab be cut for a project into lines that do not begin as its markers do, and
-- such markers with the line after each. Syncing the project and then removing it leaves, in their
-- order, all of the first and none of the second, each followed by a line break, and no
-- `.conductr-local`. A line begins as the project's markers do also if it is a marker of a project
-- whose tag begins with this one's and a dash. The conditions are that the crontab takes every text,
-- the file can be written and deleted, no carriage return stands in the first crontab, no line break
-- or carriage return in a generated line, no command line begins as a marker of the project does, and
-- no two tasks are alike.
pub sync_crontab-remove :
    (world : World) (cfg : ConductrConfig) (log_dir : Text) (host : Host) (blocks : List Block)
    → lines host.crontab ≡ lines_of blocks
    → are_cut cfg.project_tag blocks ≡ true
    → ((contents : Text) → world.takes contents ≡ true)
    → world.saves ≡ true
    → world.deletes (codes ".conductr-local") ≡ true
    → contains 13 host.crontab ≡ false
    → are_lines (generate_lines cfg log_dir) ≡ true
    → no_line_ours (starts_with (our_prefix cfg.project_tag)) (generate_lines cfg log_dir) ≡ true
    → distinct_tasks cfg.cadence ≡ true
    → (sync_crontab world cfg (generate_lines cfg log_dir) log_dir false host
        >>= remove world false)
      ≡ ok (record host { crontab = with_newlines (their_lines blocks); local = none })
sync_crontab-remove world cfg log_dir host blocks cut e t s x c l n d =
    sync_crontab-remove-merge world cfg log_dir host t s x c l n d
    ∙ ap (λ (left : Text). ok (record host { crontab = left; local = none }))
        (merge_none host.crontab cfg.project_tag blocks cut e)
