-- ===== src/Prelude/Split.antt =====
-- The `str` methods that cut a text up.
use Prim.Native.Nat.{ℕ}
use mathlib.Core.Bool.{Bool}
use mathlib.Core.Option.{Option, none, some}
use mathlib.Core.List.{List, [], ◌∷◌, reverse}
use conductr.Prelude.Tests.{◌==◌, if◌then◌else◌}
use conductr.Prelude.Strings.{Text, is_whitespace, starts_with, strip_prefix}

abbrev pub cons_head : ℕ → List Text → List Text
cons_head c [] = (c ∷ []) ∷ []
cons_head c (s ∷ rest) = (c ∷ s) ∷ rest

-- `split(sep)`: one part more than there are separators.
abbrev pub split : ℕ → Text → List Text
split sep [] = [] ∷ []
split sep (c ∷ s) = let rest = split sep s in if c == sep then [] ∷ rest else cons_head c rest

-- The part before the first character of which `p` holds, and the part behind it.
abbrev pub split_once_by : (ℕ → Bool) → Text → Option (Text × Text)
split_once_by p [] = none
split_once_by p (c ∷ s) =
    let rest = split_once_by p s in
    if p c
    then some ([], s)
    else elim rest [ none ↦ none | some (before, after) ↦ some (c ∷ before, after) ]

abbrev pub split_once : ℕ → Text → Option (Text × Text)
split_once sep = split_once_by (λ c. c == sep)

abbrev pub drop_empty_last : List Text → List Text
drop_empty_last [] = []
drop_empty_last ([] ∷ []) = []
drop_empty_last (s ∷ rest) = s ∷ drop_empty_last rest

-- A `\r` before the end of a line goes with it.
abbrev pub strip_return : Text → Text
strip_return [] = []
strip_return (c ∷ []) = if c == 13 then [] else c ∷ []
strip_return (c ∷ s) = c ∷ strip_return s

abbrev pub strip_returns : List Text → List Text
strip_returns [] = []
strip_returns (s ∷ []) = s ∷ []
strip_returns (s ∷ rest) = strip_return s ∷ strip_returns rest

-- `lines()`: a last line that is empty is left out; the last line keeps a `\r`.
abbrev pub lines : Text → List Text
lines s = drop_empty_last (strip_returns (split 10 s))

abbrev pub nonempty : List Text → List Text
nonempty [] = []
nonempty ([] ∷ rest) = nonempty rest
nonempty (s ∷ rest) = s ∷ nonempty rest

abbrev blank : Text → Text
blank [] = []
blank (c ∷ s) = (if is_whitespace c then 32 else c) ∷ blank s

-- `split_whitespace()`.
abbrev pub split_whitespace : Text → List Text
split_whitespace s = nonempty (split 32 (blank s))

-- `trim_start_matches(c)` and `trim_end_matches(c)`.
abbrev pub trim_start_matches : ℕ → Text → Text
trim_start_matches c [] = []
trim_start_matches c (d ∷ s) = if d == c then trim_start_matches c s else d ∷ s

abbrev pub trim_end_matches : ℕ → Text → Text
trim_end_matches c s = reverse (trim_start_matches c (reverse s))

abbrev pub ends_with : Text → Text → Bool
ends_with suffix s = starts_with (reverse suffix) (reverse s)

-- The parts of `s` before and behind the first occurrence of `sep`.
abbrev pub split_at : Text → Text → Option (Text × Text)
split_at sep [] = none
split_at sep (c ∷ s) =
    let rest = split_at sep s in
    elim (strip_prefix sep (c ∷ s)) [
      | some after ↦ some ([], after)
      | none ↦ elim rest [ none ↦ none | some (before, after) ↦ some (c ∷ before, after) ]
    ]
