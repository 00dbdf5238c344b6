-- ===== src/Cli/Crontab/Entries.antt =====
-- The lines of a crontab that are left out for a project or for one of its entries.
use conductr.Prelude.{
  Text, List, [], ◌∷◌, ◌++◌, any, map, Bool, true, false, not, ◌&&◌, all, starts_with, text_eq,
  text_eq_refl, eq_of_text_eq, ◌≡◌, refl, ◌∙◌, ap, arith, Bool-cases, inl, inr,
}
use conductr.Cli.Crontab.{ConductrConfig, our_prefix, cron_line, generated, drop_blocks, pair_lines}
use conductr.Cli.Crontab.Lines.{drop_blocks-append}
use conductr.Cli.Crontab.Sync.{starts_with-append, are_lines}

text_eq-append : (p s t : Text) → text_eq (p ++ s) (p ++ t) ≡ text_eq s t
text_eq-append [] s t = refl
text_eq-append (c ∷ p) s t = ground (arith, text_eq-append p s t)

-- A text that does not begin with the prefix is no marker.
text_eq_other : (line p s : Text) → starts_with p line ≡ false → text_eq line (p ++ s) ≡ false
text_eq_other line p s h = elim (Bool-cases (text_eq line (p ++ s))) [
  | inl e ↦
      let same : line ≡ p ++ s = eq_of_text_eq line (p ++ s) e in
      let begins : starts_with p line ≡ true = ap (starts_with p) same ∙ starts_with-append p s in
      cc
  | inr e ↦ e
]

pub all-text_eq_other :
    (p s : Text) (front : List Text)
    → all (λ line. not (starts_with p line)) front ≡ true
    → all (λ line. not (text_eq line (p ++ s))) front ≡ true
all-text_eq_other p s [] h = refl
all-text_eq_other p s (line ∷ front) h =
    ground (arith, text_eq_other line p s, all-text_eq_other p s front)

-- The tasks of a configuration, no two alike; and command lines that are no markers of the project.
abbrev pub distinct_tasks : List (Text × Text) → Bool
distinct_tasks [] = true
distinct_tasks (entry ∷ rest) =
    not (any (λ (e : Text × Text). text_eq e.0 entry.0) rest) && distinct_tasks rest

abbrev pub no_line_ours : (Text → Bool) → List (Text × Text) → Bool
no_line_ours ours [] = true
no_line_ours ours ((marker, line) ∷ rest) = not (ours line) && no_line_ours ours rest

pub all-pair_lines_other :
    (cfg : ConductrConfig) (log_dir task : Text) (rest : List (Text × Text))
    → any (λ (e : Text × Text). text_eq e.0 task) rest ≡ false
    → no_line_ours (starts_with (our_prefix cfg.project_tag)) (map (generated cfg log_dir) rest)
      ≡ true
    → all
        (λ line. not (text_eq line (our_prefix cfg.project_tag ++ task)))
        (pair_lines (map (generated cfg log_dir) rest))
      ≡ true
all-pair_lines_other cfg log_dir task [] d h = refl
all-pair_lines_other cfg log_dir task ((other, schedule) ∷ rest) d h = ground (
  arith,
  text_eq-append (our_prefix cfg.project_tag) other task,
  text_eq_other (cron_line cfg log_dir other schedule) (our_prefix cfg.project_tag) task,
  all-pair_lines_other cfg log_dir task rest,
)

drop_blocks_none :
    (ours : Text → Bool) (back : List Text)
    → all (λ line. not (ours line)) back ≡ true
    → drop_blocks ours false back ≡ back
drop_blocks_none ours [] h = refl
drop_blocks_none ours (line ∷ back) h = ground (arith, drop_blocks_none ours back)

drop_block :
    (ours : Text → Bool) (marker line : Text) (back : List Text)
    → ours marker ≡ true
    → all (λ l. not (ours l)) back ≡ true
    → drop_blocks ours false (marker ∷ line ∷ back) ≡ back
drop_block ours marker line back e h = ground (arith, drop_blocks_none ours back h)

pub drop_entry :
    (marker line : Text) (front back : List Text)
    → all (λ l. not (text_eq l marker)) front ≡ true
    → all (λ l. not (text_eq l marker)) back ≡ true
    → drop_blocks (λ l. text_eq l marker) false (front ++ (marker ∷ line ∷ back)) ≡ front ++ back
drop_entry marker line front back h k =
    drop_blocks-append (λ l. text_eq l marker) front (marker ∷ line ∷ back) h
    ∙ ap (λ (l : List Text). front ++ l)
        (drop_block (λ l. text_eq l marker) marker line back (text_eq_refl marker) k)

-- The conditions on a list of entries, for the list behind its first.
pub are_lines-rest :
    (pair : Text × Text) (rest : List (Text × Text))
    → are_lines (pair ∷ rest) ≡ true
    → are_lines rest ≡ true
are_lines-rest pair rest h = ground arith

pub no_line_ours-rest :
    (ours : Text → Bool) (pair : Text × Text) (rest : List (Text × Text))
    → no_line_ours ours (pair ∷ rest) ≡ true
    → no_line_ours ours rest ≡ true
no_line_ours-rest ours pair rest h = ground arith

pub distinct_tasks-rest :
    (entry : Text × Text) (rest : List (Text × Text))
    → distinct_tasks (entry ∷ rest) ≡ true
    → (any (λ (e : Text × Text). text_eq e.0 entry.0) rest ≡ false) × (distinct_tasks rest ≡ true)
distinct_tasks-rest entry rest h = ground arith
