-- ===== src/Cli/Crontab/Sync.antt =====
-- What a second `cadence sync` changes, and what `cadence remove` leaves behind it.
use conductr.Prelude.{
  Text, List, [], ◌∷◌, ◌++◌, map, append-nil, Bool, true, false, not, ◌&&◌, all, contains,
  starts_with, is_empty, ◌≡◌, refl, ◌∙◌, ap, arith,
}
use conductr.Prelude.Split.{lines}
use conductr.Cli.Crontab.{
  ConductrConfig, our_prefix, generated, generate_lines, drop_blocks, pair_lines, with_newlines,
  merge,
}
use conductr.Prelude.Breaks.{is_line, all-is_line-lines}
use conductr.Cli.Crontab.Lines.{
  lines-with_newlines, all-drop_blocks, all-not-drop_blocks, drop_blocks-append, all_markers,
  drop_blocks-pair_lines,
}

pub starts_with-append : (p s : Text) → starts_with p (p ++ s) ≡ true
starts_with-append [] s = refl
starts_with-append (c ∷ p) s = ground (arith, starts_with-append p s)

all-append : (p : Text → Bool) (xs ys : List Text) → all p (xs ++ ys) ≡ (all p xs && all p ys)
all-append p [] ys = refl
all-append p (x ∷ xs) ys = ground (arith, all-append p xs ys)

-- The lines of other projects.
abbrev pub others : Text → Text → List Text
others project_tag current =
    drop_blocks (starts_with (our_prefix project_tag)) false (lines current)

-- The pairs of a list, lines both.
abbrev pub are_lines : List (Text × Text) → Bool
are_lines [] = true
are_lines ((marker, line) ∷ rest) = is_line marker && is_line line && are_lines rest

all-is_line-pair_lines :
    (new : List (Text × Text)) → are_lines new ≡ true → all is_line (pair_lines new) ≡ true
all-is_line-pair_lines [] h = refl
all-is_line-pair_lines ((marker, line) ∷ rest) h = ground (arith, all-is_line-pair_lines rest)

drop_blocks-merged :
    (ours : Text → Bool) (front : List Text) (new : List (Text × Text))
    → all (λ line. not (ours line)) front ≡ true
    → all_markers ours new ≡ true
    → drop_blocks ours false (front ++ pair_lines new) ≡ front
drop_blocks-merged ours front new h k =
    drop_blocks-append ours front (pair_lines new) h
    ∙ (ap (λ (back : List Text). front ++ back) (drop_blocks-pair_lines ours new k)
        ∙ append-nil front)

pub lines-merged :
    (front : List Text) (marker line : Text) (rest : List (Text × Text))
    → all is_line front ≡ true
    → are_lines ((marker, line) ∷ rest) ≡ true
    → lines (with_newlines (front ++ pair_lines ((marker, line) ∷ rest)))
      ≡ front ++ pair_lines ((marker, line) ∷ rest)
lines-merged [] marker line rest h k =
    lines-with_newlines marker (line ∷ pair_lines rest)
      (all-is_line-pair_lines ((marker, line) ∷ rest) k)
lines-merged (x ∷ front) marker line rest h k =
    lines-with_newlines x (front ++ pair_lines ((marker, line) ∷ rest)) (
      ground (
        arith,
        all-append is_line front (pair_lines ((marker, line) ∷ rest)),
        all-is_line-pair_lines ((marker, line) ∷ rest),
      ))

pub all_markers-generated :
    (cfg : ConductrConfig) (log_dir : Text) (cadence : List (Text × Text))
    → all_markers (starts_with (our_prefix cfg.project_tag)) (map (generated cfg log_dir) cadence)
      ≡ true
all_markers-generated cfg log_dir [] = refl
all_markers-generated cfg log_dir ((task, schedule) ∷ rest) = ground (
  arith,
  starts_with-append (our_prefix cfg.project_tag) task,
  all_markers-generated cfg log_dir rest,
)

is_empty-generated :
    (cfg : ConductrConfig) (log_dir : Text) (cadence : List (Text × Text))
    → is_empty cadence ≡ false
    → is_empty (map (generated cfg log_dir) cadence) ≡ false
is_empty-generated cfg log_dir [] e = cc
is_empty-generated cfg log_dir (entry ∷ rest) e = refl

drop_blocks-twice :
    (tag current : Text) (new : List (Text × Text))
    → is_empty new ≡ false
    → contains 13 current ≡ false
    → are_lines new ≡ true
    → all_markers (starts_with (our_prefix tag)) new ≡ true
    → others tag (merge current new tag) ≡ others tag current
unfolding merge
drop_blocks-twice tag current [] e h k m = cc
drop_blocks-twice tag current ((marker, line) ∷ rest) e h k m =
    let front = others tag current in
    ap (drop_blocks (starts_with (our_prefix tag)) false) (
      lines-merged front marker line rest
        (all-drop_blocks is_line (starts_with (our_prefix tag)) false (lines current)
          (all-is_line-lines current h))
        k)
    ∙ drop_blocks-merged (starts_with (our_prefix tag)) front ((marker, line) ∷ rest)
        (all-not-drop_blocks (starts_with (our_prefix tag)) false (lines current)) m

-- Of two merges for one project only the second counts: merging any lines into the crontab into which
-- the lines generated from a configuration have been merged gives what merging them into the first
-- crontab gives. The configuration has a task, no carriage return stands in the first crontab, and no
-- line break or carriage return in a generated line.
pub merge-merge :
    (cfg : ConductrConfig) (log_dir current : Text) (new : List (Text × Text))
    → is_empty cfg.cadence ≡ false
    → contains 13 current ≡ false
    → are_lines (generate_lines cfg log_dir) ≡ true
    → merge (merge current (generate_lines cfg log_dir) cfg.project_tag) new cfg.project_tag
      ≡ merge current new cfg.project_tag
unfolding generate_lines merge
merge-merge cfg log_dir current new e h k =
    ap (λ (front : List Text). with_newlines (front ++ pair_lines new))
      (drop_blocks-twice cfg.project_tag current (generate_lines cfg log_dir)
        (is_empty-generated cfg log_dir cfg.cadence e) h k
        (all_markers-generated cfg log_dir cfg.cadence))
