-- ===== src/Cli/Crontab/Blocks.antt =====
-- A crontab as blocks: what the loop of `merge` in cadence.rs leaves of them.
use conductr.Prelude.{
  Text, List, [], ◌∷◌, append-nil, Bool, true, false, not, ◌&&◌, starts_with, ◌≡◌, refl, ◌∙◌, ap,
  arith,
}
use conductr.Prelude.Split.{lines}
use conductr.Cli.Crontab.{our_prefix, drop_blocks, with_newlines, merge}

-- A crontab, cut for a project: a line that is no marker of the project, or such a marker and the
-- line after it.
pub data Block : Type 0 where
  theirs : (line : Text) → Block
  ours : (marker line : Text) → Block

abbrev pub lines_of : List Block → List Text
lines_of [] = []
lines_of (theirs line ∷ rest) = line ∷ lines_of rest
lines_of (ours marker line ∷ rest) = marker ∷ line ∷ lines_of rest

abbrev pub their_lines : List Block → List Text
their_lines [] = []
their_lines (theirs line ∷ rest) = line ∷ their_lines rest
their_lines (ours marker line ∷ rest) = their_lines rest

-- The project's markers begin with `# conductr-cron: <project_tag>-`.
abbrev pub are_cut : Text → List Block → Bool
are_cut project_tag [] = true
are_cut project_tag (theirs line ∷ rest) =
    not (starts_with (our_prefix project_tag) line) && are_cut project_tag rest
are_cut project_tag (ours marker line ∷ rest) =
    starts_with (our_prefix project_tag) marker && are_cut project_tag rest

drop_blocks-lines_of :
    (project_tag : Text) (blocks : List Block)
    → are_cut project_tag blocks ≡ true
    → drop_blocks (starts_with (our_prefix project_tag)) false (lines_of blocks)
      ≡ their_lines blocks
drop_blocks-lines_of project_tag [] h = refl
drop_blocks-lines_of project_tag (theirs line ∷ rest) h =
    ground (arith, drop_blocks-lines_of project_tag rest)
drop_blocks-lines_of project_tag (ours marker line ∷ rest) h =
    ground (arith, drop_blocks-lines_of project_tag rest)

pub merge_none :
    (current project_tag : Text) (blocks : List Block)
    → lines current ≡ lines_of blocks
    → are_cut project_tag blocks ≡ true
    → merge current [] project_tag ≡ with_newlines (their_lines blocks)
unfolding merge
merge_none current project_tag blocks e h = ap with_newlines (
    append-nil (drop_blocks (starts_with (our_prefix project_tag)) false (lines current))
    ∙ (ap (drop_blocks (starts_with (our_prefix project_tag)) false) e
        ∙ drop_blocks-lines_of project_tag blocks h))
