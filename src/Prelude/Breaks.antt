-- ===== src/Prelude/Breaks.antt =====
-- Texts that are cut into lines.
use Prim.Native.Nat.{ℕ}
use mathlib.Core.Path.{◌≡◌, refl, ap, ◌∙◌}
use mathlib.Core.Bool.{Bool, true, false, ◌&&◌, not}
use mathlib.Core.List.{List, [], ◌∷◌, ◌++◌, map}
use native.Mathlib.Omega.{arith}
use conductr.Prelude.Tests.{◌==◌}
use conductr.Prelude.Lists.{is_empty, all}
use conductr.Prelude.Count.{contains}
use conductr.Prelude.Strings.{Text}
use conductr.Prelude.Split.{split, lines, strip_return, strip_returns, drop_empty_last, cons_head}

-- A text without line breaks and carriage returns.
abbrev pub is_line : Text → Bool
is_line s = not (contains 10 s) && not (contains 13 s)

pub strip_return-is_line : (s : Text) → contains 13 s ≡ false → strip_return s ≡ s
strip_return-is_line [] h = refl
strip_return-is_line (c ∷ []) h = ground arith
strip_return-is_line (c ∷ d ∷ s) h = ground (arith, strip_return-is_line (d ∷ s))

split-line : (x t : Text) → contains 10 x ≡ false → split 10 (x ++ (10 ∷ t)) ≡ x ∷ split 10 t
split-line [] t h = refl
split-line (c ∷ x) t h = ground (arith, split-line x t)

strip_return_before :
    (x : Text) (parts : List Text)
    → is_empty parts ≡ false
    → contains 13 x ≡ false
    → drop_empty_last (strip_returns (x ∷ parts)) ≡ x ∷ drop_empty_last (strip_returns parts)
strip_return_before x [] h k = cc
strip_return_before [] (p ∷ []) h k = refl
strip_return_before [] (p ∷ q ∷ parts) h k = refl
strip_return_before (c ∷ x) (p ∷ []) h k = ground (arith, strip_return-is_line (c ∷ x) k)
strip_return_before (c ∷ x) (p ∷ q ∷ parts) h k = ground (arith, strip_return-is_line (c ∷ x) k)

is_empty-cons_head : (c : ℕ) (parts : List Text) → is_empty (cons_head c parts) ≡ false
is_empty-cons_head c [] = refl
is_empty-cons_head c (p ∷ parts) = refl

pub is_empty-split : (t : Text) → is_empty (split 10 t) ≡ false
is_empty-split [] = refl
is_empty-split (c ∷ t) = ground (arith, is_empty-cons_head c (split 10 t))

pub lines-line : (x t : Text) → is_line x ≡ true → lines (x ++ (10 ∷ t)) ≡ x ∷ lines t
lines-line x t h =
    ap (λ (parts : List Text). drop_empty_last (strip_returns parts))
      (split-line x t (ground arith))
    ∙ strip_return_before x (split 10 t) (is_empty-split t) (ground arith)

all-is_line-cons_head :
    (c : ℕ) (parts : List Text)
    → (c == 10) ≡ false
    → (c == 13) ≡ false
    → all is_line parts ≡ true
    → all is_line (cons_head c parts) ≡ true
all-is_line-cons_head c [] h k e = ground arith
all-is_line-cons_head c (p ∷ parts) h k e = ground arith

pub all-is_line-split : (s : Text) → contains 13 s ≡ false → all is_line (split 10 s) ≡ true
all-is_line-split [] h = refl
all-is_line-split (c ∷ s) h =
    ground (arith, all-is_line-split s, all-is_line-cons_head c (split 10 s))

pub strip_returns-is_line :
    (parts : List Text) → all is_line parts ≡ true → strip_returns parts ≡ parts
strip_returns-is_line [] h = refl
strip_returns-is_line (p ∷ []) h = refl
strip_returns-is_line (p ∷ q ∷ parts) h =
    ground (arith, strip_return-is_line p, strip_returns-is_line (q ∷ parts))

all-is_line-drop_empty_last :
    (parts : List Text) → all is_line parts ≡ true → all is_line (drop_empty_last parts) ≡ true
all-is_line-drop_empty_last [] h = refl
all-is_line-drop_empty_last ([] ∷ []) h = refl
all-is_line-drop_empty_last ([] ∷ q ∷ parts) h =
    ground (arith, all-is_line-drop_empty_last (q ∷ parts))
all-is_line-drop_empty_last ((c ∷ p) ∷ parts) h = ground (arith, all-is_line-drop_empty_last parts)

pub all-is_line-lines : (s : Text) → contains 13 s ≡ false → all is_line (lines s) ≡ true
all-is_line-lines s h =
    let e = all-is_line-split s h in
    all-is_line-drop_empty_last (strip_returns (split 10 s))
      (ap (all is_line) (strip_returns-is_line (split 10 s) e) ∙ e)

cons_head-append :
    (c : ℕ) (parts back : List Text)
    → is_empty parts ≡ false
    → cons_head c (parts ++ back) ≡ cons_head c parts ++ back
cons_head-append c [] back h = cc
cons_head-append c (p ∷ parts) back h = refl

pub split-append : (a t : Text) → split 10 (a ++ (10 ∷ t)) ≡ split 10 a ++ split 10 t
split-append [] t = refl
split-append (c ∷ a) t =
    ground
      (arith, split-append a t, cons_head-append c (split 10 a) (split 10 t) (is_empty-split a))

strip_returns-append :
    (front back : List Text)
    → is_empty back ≡ false
    → strip_returns (front ++ back) ≡ map strip_return front ++ strip_returns back
strip_returns-append front [] h = cc
strip_returns-append [] (q ∷ back) h = refl
strip_returns-append (p ∷ []) (q ∷ back) h = refl
strip_returns-append (p ∷ r ∷ front) (q ∷ back) h =
    ap (λ (l : List Text). strip_return p ∷ l) (strip_returns-append (r ∷ front) (q ∷ back) h)

is_empty-strip_returns : (parts : List Text) → is_empty (strip_returns parts) ≡ is_empty parts
is_empty-strip_returns [] = refl
is_empty-strip_returns (p ∷ []) = refl
is_empty-strip_returns (p ∷ q ∷ parts) = refl

drop_empty_last-append :
    (front back : List Text)
    → is_empty back ≡ false
    → drop_empty_last (front ++ back) ≡ front ++ drop_empty_last back
drop_empty_last-append front [] h = cc
drop_empty_last-append [] (q ∷ back) h = refl
drop_empty_last-append ([] ∷ []) (q ∷ back) h = refl
drop_empty_last-append ([] ∷ r ∷ front) (q ∷ back) h =
    ap (λ (l : List Text). [] ∷ l) (drop_empty_last-append (r ∷ front) (q ∷ back) h)
drop_empty_last-append ((c ∷ p) ∷ front) (q ∷ back) h =
    ap (λ (l : List Text). (c ∷ p) ∷ l) (drop_empty_last-append front (q ∷ back) h)

-- The lines before a line break, and those behind it.
pub lines-append : (a t : Text) → lines (a ++ (10 ∷ t)) ≡ map strip_return (split 10 a) ++ lines t
lines-append a t =
    ap (λ (parts : List Text). drop_empty_last (strip_returns parts)) (split-append a t)
    ∙ (ap drop_empty_last (strip_returns-append (split 10 a) (split 10 t) (is_empty-split t))
        ∙ drop_empty_last-append (map strip_return (split 10 a)) (strip_returns (split 10 t))
            (is_empty-strip_returns (split 10 t) ∙ is_empty-split t))
