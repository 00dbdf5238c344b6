-- ===== src/Cli/Glob/Segments.antt =====
-- What a pattern means within one segment of a path.
use conductr.Prelude.{
  ℕ, Text, [], ◌∷◌, ◌++◌, Bool, true, ◌||◌, ◌==◌, ◌≡◌, ◌↔◌, refl, arith, ap, Bool-cases, inl, inr,
  text_eq, eq_of_text_eq,
}
use conductr.Cli.Glob.{segment_match}

-- A star stands for any text, and any other character for itself.
abbrev pub stands_for : ℕ → Text → Bool
stands_for p stood = p == b'*' || text_eq stood (p ∷ [])

abbrev pub SegmentMatches : Text → Text → Type 0
SegmentMatches [] seg = seg ≡ []
SegmentMatches (p ∷ pat) seg =
    (stood : Text) × (rest : Text) × (seg ≡ stood ++ rest)
    × (stands_for p stood ≡ true)
    × SegmentMatches pat rest

SegmentMatches-of_match : (pat seg : Text) → segment_match pat seg ≡ true → SegmentMatches pat seg
unfolding segment_match
SegmentMatches-of_match [] [] h = refl
SegmentMatches-of_match [] (s ∷ seg) h = cc
SegmentMatches-of_match (p ∷ pat) [] h = elim (Bool-cases (p == b'*')) [
  | inl e ↦ ([], [], refl, ground arith, SegmentMatches-of_match pat [] (ground arith))
  | inr e ↦ ground arith
]
SegmentMatches-of_match (p ∷ pat) (s ∷ seg) h = elim (Bool-cases (p == b'*')) [
  | inl e ↦ elim (Bool-cases (segment_match pat (s ∷ seg))) [
    | inl now ↦ ([], s ∷ seg, refl, ground arith, SegmentMatches-of_match pat (s ∷ seg) now)
    | inr later ↦
        let (stood, rest, same, fits, m) = SegmentMatches-of_match (p ∷ pat) seg (ground arith) in
        (s ∷ stood, rest, ap (λ t. s ∷ t) same, ground arith, m)
  ]
  | inr e ↦ (s ∷ [], seg, refl, ground arith, SegmentMatches-of_match pat seg (ground arith))
]

match_skip :
    (p : ℕ) (pat stood rest : Text)
    → (p == b'*') ≡ true
    → segment_match pat rest ≡ true
    → segment_match (p ∷ pat) (stood ++ rest) ≡ true
unfolding segment_match
match_skip p pat [] [] e h = ground arith
match_skip p pat [] (r ∷ rest) e h = ground arith
match_skip p pat (s ∷ stood) rest e h = ground (arith, match_skip p pat stood rest e h)

match_of-SegmentMatches : (pat seg : Text) → SegmentMatches pat seg → segment_match pat seg ≡ true
unfolding segment_match
match_of-SegmentMatches [] seg same = rw same refl
match_of-SegmentMatches (p ∷ pat) seg (stood, rest, same, fits, m) =
    let later = match_of-SegmentMatches pat rest m in
    elim (Bool-cases (p == b'*')) [
      | inl e ↦ rw same (match_skip p pat stood rest e later)
      | inr e ↦
          let one : stood ≡ p ∷ [] = eq_of_text_eq stood (p ∷ []) (ground arith) in
          rw (same, one) (ground arith)
    ]

-- A segment matches a pattern exactly if it can be cut into one part for each character of the
-- pattern, any part for a star and the character itself for any other.
pub segment_match_iff : (pat seg : Text) → (segment_match pat seg ≡ true) ↔ SegmentMatches pat seg
segment_match_iff pat seg = (SegmentMatches-of_match pat seg, match_of-SegmentMatches pat seg)
