-- ===== src/Cli/Crontab/Lines.antt =====
-- The lines of a text that is put together from lines, and the lines that are left when blocks are
-- taken out.
use conductr.Prelude.{
  Text, List, [], ◌∷◌, ◌++◌, append_assoc, Bool, true, false, not, ◌&&◌, all, ◌≡◌, refl, ◌∙◌, ap,
  arith,
}
use conductr.Prelude.Split.{lines}
use conductr.Prelude.Breaks.{is_line, lines-line}
use conductr.Cli.Crontab.{drop_blocks, with_newlines, pair_lines}

with_newlines_step :
    (x y : Text) (rest : List Text)
    → with_newlines (x ∷ y ∷ rest) ≡ x ++ (10 ∷ with_newlines (y ∷ rest))
with_newlines_step x y rest = simp append_assoc

-- Putting lines together and cutting the text into lines gives them back.
pub lines-with_newlines :
    (x : Text) (out : List Text)
    → all is_line (x ∷ out) ≡ true
    → lines (with_newlines (x ∷ out)) ≡ x ∷ out
lines-with_newlines x [] h = lines-line x [] (ground arith)
lines-with_newlines x (y ∷ out) h =
    ap lines (with_newlines_step x y out)
    ∙ (lines-line x (with_newlines (y ∷ out)) (ground arith)
        ∙ ap (λ (l : List Text). x ∷ l) (lines-with_newlines y out (ground arith)))

pub all-drop_blocks :
    (p ours : Text → Bool) (skip : Bool) (text : List Text)
    → all p text ≡ true
    → all p (drop_blocks ours skip text) ≡ true
all-drop_blocks p ours true [] h = refl
all-drop_blocks p ours false [] h = refl
all-drop_blocks p ours true (line ∷ rest) h = ground (arith, all-drop_blocks p ours false rest)
all-drop_blocks p ours false (line ∷ rest) h =
    ground (arith, all-drop_blocks p ours false rest, all-drop_blocks p ours true rest)

-- No line that is left is ours.
pub all-not-drop_blocks :
    (ours : Text → Bool) (skip : Bool) (text : List Text)
    → all (λ line. not (ours line)) (drop_blocks ours skip text) ≡ true
all-not-drop_blocks ours true [] = refl
all-not-drop_blocks ours false [] = refl
all-not-drop_blocks ours true (line ∷ rest) = all-not-drop_blocks ours false rest
all-not-drop_blocks ours false (line ∷ rest) =
    ground (arith, all-not-drop_blocks ours false rest, all-not-drop_blocks ours true rest)

pub drop_blocks-append :
    (ours : Text → Bool) (front back : List Text)
    → all (λ line. not (ours line)) front ≡ true
    → drop_blocks ours false (front ++ back) ≡ front ++ drop_blocks ours false back
drop_blocks-append ours [] back h = refl
drop_blocks-append ours (line ∷ front) back h = ground (arith, drop_blocks-append ours front back)

abbrev pub all_markers : (Text → Bool) → List (Text × Text) → Bool
all_markers p [] = true
all_markers p ((marker, line) ∷ rest) = p marker && all_markers p rest

pub drop_blocks-pair_lines :
    (ours : Text → Bool) (new : List (Text × Text))
    → all_markers ours new ≡ true
    → drop_blocks ours false (pair_lines new) ≡ []
drop_blocks-pair_lines ours [] h = refl
drop_blocks-pair_lines ours ((marker, line) ∷ rest) h =
    ground (arith, drop_blocks-pair_lines ours rest)
