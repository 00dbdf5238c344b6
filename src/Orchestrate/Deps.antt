-- ===== src/Orchestrate/Deps.antt =====
-- crates/conductr-orchestrate/src/deps.rs: the dependencies that an issue's body declares. The
-- matching of regular expressions is the crate `regex`'s, so what the three expressions of the
-- source capture in a text is a parameter.
use conductr.Prelude.{
  ℕ, Text, List, [], ◌∷◌, ◌++◌, none, some, Bool, false, ◌||◌, contains, any, Option-cases, inl,
  inr, foldl, flat_map, ◌≡◌, refl, arith, ◌==◌, IsAscending,
}
use conductr.Prelude.Decimal.{parse_u64}
use conductr.Prelude.Map.{set_insert, contains-set_insert, set_insert-IsAscending}

pub record Regexes : Type 0 where
  -- Group 1 of each match of PHRASE_RE.
  pub phrase : Text → List Text
  -- Group 1 of each match of CHECKLIST_RE.
  pub checklist : Text → List Text
  -- Group 1 of each match of ISSUE_NUM_RE.
  pub issue_num : Text → List Text

-- `if let Ok(num) = s.parse() { out.insert(num) }`.
insert_parsed : List ℕ → Text → List ℕ
insert_parsed out s = elim (parse_u64 s) [ none ↦ out | some num ↦ set_insert num out ]

module _ (re : Regexes) where
  pub insert_phrases : List ℕ → List Text → List ℕ
  unfolding insert_parsed
  insert_phrases out [] = out
  insert_phrases out (tail ∷ rest) =
      insert_phrases (foldl insert_parsed out (re.issue_num tail)) rest

  unfoldable pub parse_dependencies : Text → List ℕ
  unfolding insert_phrases
  parse_dependencies body =
      foldl insert_parsed (insert_phrases [] (re.phrase body)) (re.checklist body)

-- The text is a number `n` that fits in 64 bits.
abbrev pub parses_to : ℕ → Text → Bool
parses_to n s = elim (parse_u64 s) [ none ↦ false | some num ↦ num == n ]

contains-insert_parsed :
    (n : ℕ) (out : List ℕ) (s : Text)
    → contains n (insert_parsed out s) ≡ (parses_to n s || contains n out)
unfolding insert_parsed
contains-insert_parsed n out s = elim (Option-cases (parse_u64 s)) [
  | inl e ↦ ground arith
  | inr (num, e) ↦ ground (arith, contains-set_insert n num out)
]

contains-foldl-insert_parsed :
    (n : ℕ) (ss : List Text) (out : List ℕ)
    → contains n (foldl insert_parsed out ss) ≡ (any (parses_to n) ss || contains n out)
contains-foldl-insert_parsed n [] out = refl
contains-foldl-insert_parsed n (s ∷ ss) out =
    ground (
      arith,
      contains-foldl-insert_parsed n ss (insert_parsed out s),
      contains-insert_parsed n out s,
    )

insert_parsed-IsAscending :
    (out : List ℕ) (s : Text) → IsAscending out → IsAscending (insert_parsed out s)
unfolding insert_parsed
insert_parsed-IsAscending out s h = elim (Option-cases (parse_u64 s)) [
  | inl e ↦ rw (insert_parsed, e) h
  | inr (num, e) ↦ rw (insert_parsed, e) (set_insert-IsAscending num out h)
]

foldl-insert_parsed-IsAscending :
    (ss : List Text) (out : List ℕ) → IsAscending out → IsAscending (foldl insert_parsed out ss)
foldl-insert_parsed-IsAscending [] out h = h
foldl-insert_parsed-IsAscending (s ∷ ss) out h =
    foldl-insert_parsed-IsAscending ss (insert_parsed out s) (insert_parsed-IsAscending out s h)

any-append {ℓ} :
    {A : Type ℓ} (p : A → Bool) (xs ys : List A) → any p (xs ++ ys) ≡ (any p xs || any p ys)
any-append p [] ys = refl
any-append p (x ∷ xs) ys = ground (arith, any-append p xs ys)

module _ (re : Regexes) where
  contains-insert_phrases :
      (n : ℕ) (tails : List Text) (out : List ℕ)
      → contains n (insert_phrases re out tails)
        ≡ (any (parses_to n) (flat_map re.issue_num tails) || contains n out)
  unfolding insert_phrases
  contains-insert_phrases n [] out = refl
  contains-insert_phrases n (tail ∷ rest) out = ground (
    arith,
    contains-insert_phrases n rest (foldl insert_parsed out (re.issue_num tail)),
    contains-foldl-insert_parsed n (re.issue_num tail) out,
    any-append (parses_to n) (re.issue_num tail) (flat_map re.issue_num rest),
  )

  insert_phrases-IsAscending :
      (tails : List Text) (out : List ℕ)
      → IsAscending out
      → IsAscending (insert_phrases re out tails)
  unfolding insert_phrases
  insert_phrases-IsAscending [] out h = h
  insert_phrases-IsAscending (tail ∷ rest) out h =
      insert_phrases-IsAscending rest _ (foldl-insert_parsed-IsAscending (re.issue_num tail) out h)

  -- The dependencies are exactly the numbers below 2^64 that the issue references in the tails of
  -- the phrases and the checklist items capture, each once and in ascending order.
  pub contains-parse_dependencies :
      (body : Text)
      → ((n : ℕ)
          → contains n (parse_dependencies re body)
            ≡ any (parses_to n) (re.checklist body ++ flat_map re.issue_num (re.phrase body)))
        × IsAscending (parse_dependencies re body)
  unfolding parse_dependencies
  contains-parse_dependencies body = (
    λ n. ground (
      arith,
      contains-foldl-insert_parsed n (re.checklist body) (insert_phrases re [] (re.phrase body)),
      contains-insert_phrases n (re.phrase body) [],
      any-append (parses_to n) (re.checklist body) (flat_map re.issue_num (re.phrase body)),
    ),
    foldl-insert_parsed-IsAscending (re.checklist body) _
        (insert_phrases-IsAscending (re.phrase body) [] tt),
  )
