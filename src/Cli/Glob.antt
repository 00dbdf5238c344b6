-- ===== src/Cli/Glob.antt =====
-- crates/conductr/src/idle.rs: the glob patterns of the paths that a coverage report leaves out.
pub mod Segments
pub mod Paths
use conductr.Prelude.{
  ℕ, Text, List, [], ◌∷◌, Bool, true, false, ◌&&◌, ◌||◌, if◌then◌else◌, ◌==◌, any, text_eq, codes,
}
use conductr.Prelude.Split.{split}

-- Both slices are matched from their fronts.
unfoldable pub segment_match : Text → Text → Bool
segment_match [] [] = true
segment_match [] (s ∷ seg) = false
segment_match (p ∷ pat) [] = let rest = segment_match pat [] in if p == b'*' then rest else false
segment_match (p ∷ pat) (s ∷ seg) =
    let skipped = segment_match pat (s ∷ seg) in
    let more = segment_match (p ∷ pat) seg in
    let rest = segment_match pat seg in if p == b'*' then skipped || more else (p == s && rest)

abbrev pub is_double : Text → Bool
is_double p = text_eq p (b'*' ∷ b'*' ∷ [])

unfoldable pub glob_match_parts : List Text → List Text → Bool
glob_match_parts [] [] = true
glob_match_parts [] (s ∷ path) = false
glob_match_parts (p ∷ []) [] = is_double p
glob_match_parts (p ∷ q ∷ pat) [] = false
glob_match_parts (p ∷ pat) (s ∷ path) =
    let skipped = glob_match_parts pat (s ∷ path) in
    let more = glob_match_parts (p ∷ pat) path in
    let rest = glob_match_parts pat path in
    if is_double p then skipped || more else (segment_match p s && rest)

unfoldable pub glob_match : Text → Text → Bool
glob_match pattern path = glob_match_parts (split b'/' pattern) (split b'/' path)

unfoldable pub glob_matches_any : Text → List Text → Bool
glob_matches_any path patterns = any (λ p. glob_match p path) patterns
