-- ===== src/Cli/Glob/Paths.antt =====
-- What a pattern means for a path.
use conductr.Prelude.{
  Text, List, [], ◌∷◌, ◌++◌, Bool, true, false, not, ◌&&◌, ◌≡◌, ◌↔◌, ◌⊎◌, refl, arith, ap,
  Bool-cases, inl, inr,
}
use conductr.Prelude.Split.{split}
use conductr.Cli.Glob.{is_double, glob_match_parts, glob_match}
use conductr.Cli.Glob.Segments.{SegmentMatches, segment_match_iff}

-- A part of a pattern, and the segments that it stands for: `**` for any, any other for one that it
-- matches.
abbrev pub PartMatches : Text → List Text → Type 0
PartMatches p stood =
    (is_double p ≡ true)
    ⊎ ((is_double p ≡ false) × (s : Text) × (stood ≡ s ∷ []) × SegmentMatches p s)

abbrev pub PathMatches : List Text → List Text → Type 0
PathMatches [] path = path ≡ []
PathMatches (p ∷ pat) path =
    (stood : List Text) × (rest : List Text) × (path ≡ stood ++ rest)
    × PartMatches p stood
    × PathMatches pat rest

PathMatches-of_match :
    (pat path : List Text) → glob_match_parts pat path ≡ true → PathMatches pat path
unfolding glob_match_parts
PathMatches-of_match [] [] h = refl
PathMatches-of_match [] (s ∷ path) h = cc
PathMatches-of_match (p ∷ []) [] h = ([], [], refl, inl h, refl)
PathMatches-of_match (p ∷ q ∷ pat) [] h = cc
PathMatches-of_match (p ∷ pat) (s ∷ path) h = elim (Bool-cases (is_double p)) [
  | inl e ↦ elim (Bool-cases (glob_match_parts pat (s ∷ path))) [
    | inl now ↦ ([], s ∷ path, refl, inl e, PathMatches-of_match pat (s ∷ path) now)
    | inr later ↦
        let (stood, rest, same, fits, m) = PathMatches-of_match (p ∷ pat) path (ground arith) in
        (s ∷ stood, rest, ap (λ t. s ∷ t) same, inl e, m)
  ]
  | inr e ↦ (
    s ∷ [],
    path,
    refl,
    inr (e, s, refl, (segment_match_iff p s).0 (ground arith)),
    PathMatches-of_match pat path (ground arith),
  )
]

-- No `**` stands next to another.
abbrev pub no_double_twice : List Text → Bool
no_double_twice [] = true
no_double_twice (p ∷ []) = true
no_double_twice (p ∷ q ∷ pat) = not (is_double p && is_double q) && no_double_twice (q ∷ pat)

no_double-tail :
    (p : Text) (pat : List Text) → no_double_twice (p ∷ pat) ≡ true → no_double_twice pat ≡ true
no_double-tail p [] h = refl
no_double-tail p (q ∷ pat) h = ground arith

-- `**` stands for what comes before a match of the rest.
match_double :
    (p : Text) (pat stood : List Text) (r : Text) (rest : List Text)
    → is_double p ≡ true
    → glob_match_parts pat (r ∷ rest) ≡ true
    → glob_match_parts (p ∷ pat) (stood ++ r ∷ rest) ≡ true
unfolding glob_match_parts
match_double p pat [] r rest e h = ground arith
match_double p pat (s ∷ stood) r rest e h = ground (arith, match_double p pat stood r rest e h)

match_last :
    (p : Text) (path : List Text) → is_double p ≡ true → glob_match_parts (p ∷ []) path ≡ true
unfolding glob_match_parts
match_last p [] e = e
match_last p (s ∷ path) e = ground (arith, match_last p path e)

match_before :
    (p q : Text) (pat stood rest : List Text)
    → is_double p ≡ true
    → is_double q ≡ false
    → glob_match_parts (q ∷ pat) rest ≡ true
    → glob_match_parts (p ∷ q ∷ pat) (stood ++ rest) ≡ true
match_before p q [] stood [] e f h = unfold glob_match_parts in ground arith
match_before p q (x ∷ pat) stood [] e f h = unfold glob_match_parts in cc
match_before p q pat stood (r ∷ rest) e f h = match_double p (q ∷ pat) stood r rest e h

match_one :
    (p s : Text) (pat rest : List Text)
    → is_double p ≡ false
    → SegmentMatches p s
    → glob_match_parts pat rest ≡ true
    → glob_match_parts (p ∷ pat) (s ∷ rest) ≡ true
unfolding glob_match_parts
match_one p s pat rest e m h = ground (arith, (segment_match_iff p s).1 m)

match_of-PathMatches :
    (pat path : List Text)
    → no_double_twice pat ≡ true
    → PathMatches pat path
    → glob_match_parts pat path ≡ true
match_of-PathMatches [] path n same = rw same (unfold glob_match_parts in refl)
match_of-PathMatches (p ∷ []) path n (stood, rest, same, inl e, m) = match_last p path e
match_of-PathMatches (p ∷ q ∷ pat) path n (stood, rest, same, inl e, m) =
    let later = match_of-PathMatches (q ∷ pat) rest (ground arith) m in
    rw same (match_before p q pat stood rest e (ground arith) later)
match_of-PathMatches (p ∷ pat) path n (stood, rest, same, inr (e, s, one, fits), m) =
    let later = match_of-PathMatches pat rest (no_double-tail p pat n) m in
    rw (same, one) (match_one p s pat rest e fits later)

-- A pattern in which no `**` stands next to another matches a path exactly if the path's segments
-- can be cut into one run for each part of the pattern: any run for `**`, and for any other part one
-- segment that it matches.
pub glob_match_iff :
    (pattern path : Text)
    → no_double_twice (split b'/' pattern) ≡ true
    → (glob_match pattern path ≡ true) ↔ PathMatches (split b'/' pattern) (split b'/' path)
unfolding glob_match
glob_match_iff pattern path single = (
  PathMatches-of_match (split b'/' pattern) (split b'/' path),
  match_of-PathMatches (split b'/' pattern) (split b'/' path) single,
)
