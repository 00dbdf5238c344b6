-- ===== src/Orchestrate/Tempo.antt =====
-- crates/conductr-orchestrate/src/tempo.rs, and the end of a pass in orchestrator.rs: the rows about
-- closed PRs that are appended to `.conductr`. Times and minutes are what they are printed as, since
-- a point in time is printed by chrono and the minutes are a floating point number.
pub mod Scan
pub mod Rows
pub mod Kept
pub mod Flush
use conductr.Prelude.{
  ℕ, Text, List, [], ◌∷◌, ◌++◌, Option, none, some, Bool, true, false, not, ◌&&◌, ◌||◌,
  if◌then◌else◌, ◌==◌, leb, codes, map, flat_map, any, filter, find, is_empty, contains, trim,
  starts_with, strip_prefix, text_eq, to_ascii_lowercase, join,
}
use conductr.Prelude.Decimal.{show_nat, parse_u64}
use conductr.Prelude.Split.{split, lines, nonempty, trim_end_matches}
use conductr.Core.Types.{Issue}
use conductr.Orchestrate.Architect.{
  Complexity, m_, complexity_text, complexity_for, phrase_id_from_title,
}
use conductr.Orchestrate.Cycle.{World, Setup, Cycle, ClosedPr, issue_named}
use conductr.Orchestrate.Cycle.Pass.{run_cycle}

pub record TempoPrRow : Type 0 where
  pub number : ℕ
  pub title : Text
  pub phrase : Option Text
  pub chord : Option Text
  pub complexity : Complexity
  pub opened : Text
  pub closed : Text
  pub merged : Bool

pub record CiRunRow : Type 0 where
  pub pr : ℕ
  pub minutes : Text
  pub ts : Text

-- `replace(c, by)`.
abbrev replace : ℕ → Text → Text → Text
replace c by [] = []
replace c by (d ∷ s) = if d == c then by ++ replace c by s else d ∷ replace c by s

unfoldable pub toml_str : Text → Text
toml_str s =
    codes "\""
    ++ (replace 10 (codes "\\n") (replace 34 (codes "\\\"") (replace 92 (codes "\\\\") s))
        ++ codes "\"")

abbrev pub trim_equals : Text → Text
trim_equals [] = []
trim_equals (c ∷ s) = if c == b' ' || c == b'=' then trim_equals s else c ∷ s

-- The number that a line gives the key, if it does.
abbrev pub number_in : Text → Text → List ℕ
number_in key trimmed = elim (strip_prefix key trimmed) [
  | none ↦ []
  | some rest ↦ elim (parse_u64 (trim (trim_equals rest))) [ none ↦ [] | some n ↦ n ∷ [] ]
]

-- The loop over the lines, from `in_section` on. The set is a list of its elements.
unfoldable pub scan : Text → Text → Bool → List Text → List ℕ
scan header key in_section [] = []
scan header key in_section (line ∷ rest) =
    let trimmed = trim line in
    let is_header = text_eq trimmed header in
    let is_other = starts_with (codes "[[") trimmed in
    let later = scan header key (is_header || (not is_other && in_section)) rest in
    if not is_header && not is_other && in_section then number_in key trimmed ++ later else later

unfoldable pub parse_existing_numbers : Text → Text → Text → List ℕ
parse_existing_numbers text header key = scan header key false (lines text)

abbrev opt_line : Text → Option Text → Text
opt_line label none = []
opt_line label (some value) = label ++ (toml_str value ++ codes "\n")

abbrev show_bool : Bool → Text
show_bool true = codes "true"
show_bool false = codes "false"

-- What is pushed for a row behind its number.
unfoldable pub pr_fields : TempoPrRow → Text
pr_fields row =
    codes "title      = "
    ++ (toml_str row.title
        ++ (codes "\n"
            ++ (opt_line (codes "phrase     = ") row.phrase
                ++ (opt_line (codes "chord      = ") row.chord
                    ++ (codes "complexity = "
                        ++ (toml_str (complexity_text row.complexity)
                            ++ (codes "\n"
                                ++ (codes "opened     = "
                                    ++ (toml_str row.opened
                                        ++ (codes "\n"
                                            ++ (codes "closed     = "
                                                ++ (toml_str row.closed
                                                    ++ (codes "\n"
                                                        ++ (codes "merged     = "
                                                            ++ (show_bool row.merged
                                                            ++ codes "\n")))))))))))))))

unfoldable pub ci_fields : CiRunRow → Text
ci_fields row =
    codes "minutes = "
    ++ (row.minutes ++ (codes "\n" ++ (codes "ts      = " ++ (toml_str row.ts ++ codes "\n"))))

-- A row: an empty line, the header, the line of the number and the fields.
unfoldable pub row_text : Text → Text → ℕ → Text → Text
row_text header label n fields =
    codes "\n\n" ++ (header ++ (codes "\n" ++ ((label ++ show_nat n) ++ (codes "\n" ++ fields))))

abbrev pub pr_header : Text
pr_header = codes "[[tempo.prs]]"

abbrev pub ci_header : Text
ci_header = codes "[[ci.runs]]"

-- The two loops, over the numbers of the rows and their fields: the text that is pushed for the rows
-- whose number is not there.
unfoldable pub row_texts : Text → Text → List ℕ → List (ℕ × Text) → Text
row_texts header label there [] = []
row_texts header label there ((n, fields) ∷ rest) =
    let later = row_texts header label there rest in
    if contains n there then later else row_text header label n fields ++ later

abbrev pub numbered_pr : TempoPrRow → ℕ × Text
numbered_pr row = (row.number, pr_fields row)

abbrev pub numbered_ci : CiRunRow → ℕ × Text
numbered_ci row = (row.pr, ci_fields row)

unfoldable pub pr_texts : List ℕ → List TempoPrRow → Text
pr_texts there rows = row_texts pr_header (codes "number     = ") there (map numbered_pr rows)

unfoldable pub ci_texts : List ℕ → List CiRunRow → Text
ci_texts there rows = row_texts ci_header (codes "pr      = ") there (map numbered_ci rows)

-- `append_rows`, from the text of the file on, empty if it cannot be read: what is written, if
-- anything is.
unfoldable pub append_rows : Text → List TempoPrRow → List CiRunRow → Option Text
append_rows existing pr_rows ci_rows =
    let existing_pr_numbers = parse_existing_numbers existing pr_header (codes "number") in
    let existing_ci_prs = parse_existing_numbers existing ci_header (codes "pr") in
    let changed =
      any (λ (row : TempoPrRow). not (contains row.number existing_pr_numbers)) pr_rows
      || any (λ (row : CiRunRow). not (contains row.pr existing_ci_prs)) ci_rows in
    if changed
    then some (
        trim_end_matches 10 existing
        ++ ((pr_texts existing_pr_numbers pr_rows ++ ci_texts existing_ci_prs ci_rows)
            ++ codes "\n"))
    else none

-- What lies outside: how chrono prints a time, and the minutes of the last CI run of a branch, printed
-- with one digit behind the point, where the call succeeds and there is one.
pub record Prints : Type 0 where
  pub time : ℕ → Text
  pub latest_ci_run_minutes : Text → Option Text

abbrev linked_issue_of : List Issue → Option ℕ → Option Issue
linked_issue_of open_issues none = none
linked_issue_of open_issues (some n) = issue_named open_issues n

abbrev complexity_of : Option Issue → Complexity
complexity_of none = m_
complexity_of (some i) = complexity_for i.labels none

abbrev phrase_of : Option Issue → Option Text
phrase_of none = none
phrase_of (some i) = some (phrase_id_from_title i.title)

unfoldable pub pr_row : Prints → List Issue → ClosedPr → TempoPrRow
pr_row prints open_issues pr =
    let linked = linked_issue_of open_issues pr.linked_issue in
    record {
      number = pr.number;
      title = pr.title;
      phrase = phrase_of linked;
      chord = none;
      complexity = complexity_of linked;
      opened = prints.time pr.opened_at;
      closed = prints.time pr.closed_at;
      merged = pr.merged;
    }

unfoldable pub ci_row : Prints → ClosedPr → List CiRunRow
ci_row prints pr = elim (prints.latest_ci_run_minutes pr.head_ref) [
  | none ↦ []
  | some minutes ↦ record { pr = pr.number; minutes = minutes; ts = prints.time pr.closed_at } ∷ []
]

-- The end of a pass: what is written to the file at `conductr_config_path`, if one is configured and
-- anything is written. A failure to write is only logged.
unfoldable pub write_back : Prints → List Issue → List ClosedPr → Option Text → Option Text
write_back prints open_issues closed_prs none = none
write_back prints open_issues closed_prs (some existing) =
    append_rows existing (map (pr_row prints open_issues) closed_prs)
      (flat_map (ci_row prints) closed_prs)

abbrev issues_of : Option (List Issue) → List Issue
issues_of none = []
issues_of (some issues) = issues

abbrev closed_of : Option (List ClosedPr) → List ClosedPr
closed_of none = []
closed_of (some prs) = prs

-- A whole pass, the write-back included.
unfoldable pub run_cycle_and_write :
    Prints → World → Setup → List (ℕ × ℕ) → Option Text → Option (Cycle × Option Text)
run_cycle_and_write prints w setup since file = elim (run_cycle w setup since) [
  | none ↦ none
  | some cycle ↦
      some
        (cycle, write_back prints (issues_of w.list_open_issues) (closed_of w.list_closed_prs) file)
]
