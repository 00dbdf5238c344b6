-- ===== src/Orchestrate/Classifier/Buckets.antt =====
-- When an issue is in each bucket.
use conductr.Prelude.{
  ℕ, List, [], ◌∷◌, none, some, Bool, true, false, find, contains, any, ◌≡◌, ◌≢◌, ◌↔◌, arith, refl,
  inl, inr, Option-cases, Bool-cases, sym, ◌∙◌, subst, Option, ◌⊎◌, starts_with,
}
use conductr.Core.Types.{Issue, Pr, PrState, CiStatus, Bucket, is_human}
use conductr.Orchestrate.Deps.{Regexes}
use conductr.Orchestrate.Isolation.{is_linked_to}
use conductr.Orchestrate.Classifier.{is_closed, is_pr_of, branch_prefix, blocking_of, classify}

find-none : (p : Pr → Bool) (prs : List Pr) → (find p prs ≡ none) ↔ (any p prs ≡ false)
find-none p [] = (λ _. refl, λ _. refl)
find-none p (x ∷ xs) = ground (arith, find-none p xs)

-- The PR is open, and linked to the issue or on a branch that is named for it.
abbrev pub IsPrOf : ℕ → Pr → Type 0
IsPrOf n p =
    (p.state ≡ PrState.open_)
    × ((p.linked_issue ≡ some n) ⊎ (starts_with (branch_prefix n) p.head_ref ≡ true))

linked_iff : (n : ℕ) (o : Option ℕ) → (is_linked_to n o ≡ true) ↔ (o ≡ some n)
linked_iff n none = ground arith
linked_iff n (some m) = (λ h. ground arith, λ h. ground arith)

is_pr_of_iff : (n : ℕ) (p : Pr) → (is_pr_of n p ≡ true) ↔ IsPrOf n p
unfolding is_pr_of
is_pr_of_iff n p = ground (arith, linked_iff n p.linked_issue)

-- The first PR of the list that is one of the issue.
abbrev pub IsFirst : ℕ → List Pr → Pr → Type 0
IsFirst n [] p = ⊥
IsFirst n (q ∷ qs) p = (IsPrOf n q × (q ≡ p)) ⊎ (¬ (IsPrOf n q) × IsFirst n qs p)

find-IsFirst : (n : ℕ) (prs : List Pr) (p : Pr) → (find (is_pr_of n) prs ≡ some p) ↔ IsFirst n prs p
find-IsFirst n [] p = ground arith
find-IsFirst n (q ∷ qs) p = elim (Bool-cases (is_pr_of n q)) [
  | inl e ↦ ground (arith, (is_pr_of_iff n q).0 e)
  | inr e ↦ ground (arith, is_pr_of_iff n q, find-IsFirst n qs p)
]

abbrev pub IsForAgent : Issue → Type 0
IsForAgent issue = (is_closed issue.state ≡ false) × (is_human issue ≡ false)

-- Open, for an agent, and with no open PR of its own.
abbrev pub IsUnlinked : Issue → List Pr → Type 0
IsUnlinked issue prs =
    (is_closed issue.state ≡ false)
    × (is_human issue ≡ false)
    × (any (is_pr_of issue.number) prs ≡ false)

some_inj : {p q : Pr} → some p ≡ some q → p ≡ q
some_inj h = cc

none≢some : {p : Pr} → none ≡ some p → ⊥
none≢some h = cc

-- What holds of the first PR holds of the one that is found, and the other way round.
find-holds {κ} :
    (P : Pr → Type κ) (n : ℕ) (prs : List Pr) (p : Pr)
    → find (is_pr_of n) prs ≡ some p
    → (P p) ↔ ((x : Pr) × IsFirst n prs x × P x)
find-holds P n prs p e = (
  λ h. (p, (find-IsFirst n prs p).0 e, h),
  λ (x, first, h).
      let same : x ≡ p = some_inj (sym ((find-IsFirst n prs x).1 first) ∙ e) in subst P same h,
)

none-holds {κ} :
    (P : Pr → Type κ) (n : ℕ) (prs : List Pr)
    → find (is_pr_of n) prs ≡ none
    → ¬ ((x : Pr) × IsFirst n prs x × P x)
none-holds P n prs e (x, first, h) = none≢some (sym e ∙ (find-IsFirst n prs x).1 first)

module _ (re : Regexes) (issue : Issue) (closed : List ℕ) (prs : List Pr) (triggered : List ℕ) where
  -- An issue is ready exactly when it is open, not for a human, without an open PR, with every
  -- dependency closed, and not triggered yet.
  pub classify-ready : ((classify re issue closed prs triggered).bucket ≡ Bucket.ready) ↔ (
      IsUnlinked issue prs
      × (blocking_of re issue closed ≡ [])
      × (contains issue.number triggered ≡ false))
  unfolding classify
  classify-ready = ground (arith, find-none (is_pr_of issue.number) prs)

  -- An issue is blocked exactly when it is open, not for a human, without an open PR, and some
  -- dependency is not closed; it is waiting exactly when it is open, not for a human, without an
  -- open PR, with every dependency closed, and triggered.
  pub classify-blocked :
      (((classify re issue closed prs triggered).bucket ≡ Bucket.blocked)
        ↔ (IsUnlinked issue prs × (blocking_of re issue closed ≢ [])))
      × (((classify re issue closed prs triggered).bucket ≡ Bucket.triggered_waiting) ↔ (
          IsUnlinked issue prs
          × (blocking_of re issue closed ≡ [])
          × (contains issue.number triggered ≡ true)))
  unfolding classify
  classify-blocked = (
    ground (arith, find-none (is_pr_of issue.number) prs),
    ground (arith, find-none (is_pr_of issue.number) prs),
  )

  -- An issue has the bucket PrFailing exactly when it is open, not for a human, and the CI of its
  -- first open PR is failing, and the bucket PrOpen exactly when that PR's CI is anything else. The
  -- PR that is named is this one. The PRs of an issue are those that are linked to it and those on
  -- a branch named for it.
  pub classify-pr :
      (n : ℕ)
      → (((classify re issue closed prs triggered).bucket ≡ Bucket.pr_failing)
          ↔ (IsForAgent issue × (p : Pr) × IsFirst issue.number prs p × (p.ci ≡ CiStatus.failing)))
        × (((classify re issue closed prs triggered).bucket ≡ Bucket.pr_open) ↔ (
            IsForAgent issue × (p : Pr) × IsFirst issue.number prs p × (p.ci ≢ CiStatus.failing)))
        × (((classify re issue closed prs triggered).pr ≡ some n)
            ↔ (IsForAgent issue × (p : Pr) × IsFirst issue.number prs p × (p.number ≡ n)))
  unfolding classify
  classify-pr n = elim (Option-cases (find (is_pr_of issue.number) prs)) [
    | inl e ↦ (
      ground (arith, none-holds (λ p. p.ci ≡ CiStatus.failing) issue.number prs e),
      ground (arith, none-holds (λ p. p.ci ≢ CiStatus.failing) issue.number prs e),
      ground (arith, none-holds (λ p. p.number ≡ n) issue.number prs e),
    )
    | inr (p, e) ↦ (
      ground (arith, find-holds (λ x. x.ci ≡ CiStatus.failing) issue.number prs p e),
      ground (arith, find-holds (λ x. x.ci ≢ CiStatus.failing) issue.number prs p e),
      ground (arith, find-holds (λ x. x.number ≡ n) issue.number prs p e),
    )
  ]
