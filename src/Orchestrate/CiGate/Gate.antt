-- ===== src/Orchestrate/CiGate/Gate.antt =====
-- How the presets compare at the merge gate, and what STRICT answers.
use conductr.Prelude.{
  Text, List, [], ◌∷◌, ◌++◌, Option, none, some, Bool, true, false, not, ◌≡◌, ◌≤◌, arith, all, refl,
  ◌↔◌,
}
use conductr.Core.Types.{SafetyPreset, unhinged, feral, fast, strict, bureaucratic}
use conductr.Core.Safety.Resolve.{severity}
use conductr.Orchestrate.CiGate.{
  CheckStatus, green, transient, Check, Branch, allowed, blocked_by, retry_once, is_green,
  required_checks, failure, feral_predicate, fast_predicate, strict_loop, bureaucratic_loop,
  can_merge,
}

abbrev pub all_green : List Check → Bool
all_green = all (λ (c : Check). is_green c.status)

fast-allowed : (cs : List Check) → (fast_predicate cs ≡ allowed) ↔ (all_green cs ≡ true)
unfolding fast_predicate
fast-allowed [] = (λ _. refl, λ _. refl)
fast-allowed (c ∷ cs) = ground (arith, fast-allowed cs)

strict-allowed :
    (seen : Option Text) (cs : List Check)
    → strict_loop seen cs ≡ allowed
    → (seen ≡ none) × (all_green cs ≡ true)
unfolding strict_loop
strict-allowed none [] h = (refl, refl)
strict-allowed (some n) [] h = cc
strict-allowed none (c ∷ cs) h =
    ground (arith, strict-allowed none cs, strict-allowed (some c.name) cs)
strict-allowed (some n) (c ∷ cs) h = ground (arith, strict-allowed (some n) cs)

strict-of-all_green : (cs : List Check) → all_green cs ≡ true → strict_loop none cs ≡ allowed
unfolding strict_loop
strict-of-all_green [] h = refl
strict-of-all_green (c ∷ cs) h = ground (arith, strict-of-all_green cs)

bureaucratic-allowed :
    (b : Branch) (cs : List Check)
    → bureaucratic_loop b cs ≡ allowed
    → (all_green cs ≡ true)
      × (b.review_approved ≡ true)
      × (b.linked_issue_closed ≡ true)
      × (b.adr_present ≡ true)
unfolding bureaucratic_loop
bureaucratic-allowed b [] h = ground arith
bureaucratic-allowed b (c ∷ cs) h = ground (arith, bureaucratic-allowed b cs)

required_green : (cs : List Check) → all_green cs ≡ true → all_green (required_checks cs) ≡ true
required_green [] h = refl
required_green (c ∷ cs) h = ground (arith, required_green cs)

feral-of-fast : (cs : List Check) → all_green cs ≡ true → feral_predicate cs ≡ allowed
unfolding feral_predicate
feral-of-fast [] h = refl
feral-of-fast (c ∷ cs) h = ground arith

-- What one step down in severity keeps.
strict-of-bureaucratic :
    (b : Branch) → can_merge b bureaucratic ≡ allowed → can_merge b strict ≡ allowed
unfolding can_merge
strict-of-bureaucratic b h = strict-of-all_green b.checks (bureaucratic-allowed b b.checks h).0

fast-of-strict : (b : Branch) → can_merge b strict ≡ allowed → can_merge b fast ≡ allowed
unfolding can_merge
fast-of-strict b h =
    (fast-allowed (required_checks b.checks)).1
      (required_green b.checks (strict-allowed none b.checks h).1)

feral-of-fast_branch : (b : Branch) → can_merge b fast ≡ allowed → can_merge b feral ≡ allowed
unfolding can_merge
feral-of-fast_branch b h =
    feral-of-fast (required_checks b.checks) ((fast-allowed (required_checks b.checks)).0 h)

unhinged_allowed : (b : Branch) → can_merge b unhinged ≡ allowed
unfolding can_merge
unhinged_allowed b = refl

-- The gate is monotone: a branch that may be merged under a preset may be merged under every
-- preset that is less restrictive.
pub can_merge_mono :
    (b : Branch) (p q : SafetyPreset)
    → severity p ≤ severity q
    → can_merge b q ≡ allowed
    → can_merge b p ≡ allowed
can_merge_mono b unhinged q h k = unhinged_allowed b
can_merge_mono b feral q h k =
    ground (arith, feral-of-fast_branch b, fast-of-strict b, strict-of-bureaucratic b)
can_merge_mono b fast q h k = ground (arith, fast-of-strict b, strict-of-bureaucratic b)
can_merge_mono b strict q h k = ground (arith, strict-of-bureaucratic b)
can_merge_mono b bureaucratic q h k = ground arith

abbrev pub is_hard_failure : CheckStatus → Bool
is_hard_failure green = false
is_hard_failure transient = false
is_hard_failure _ = true

abbrev pub no_hard_failure : List Check → Bool
no_hard_failure = all (λ (c : Check). not (is_hard_failure c.status))

strict-seen :
    (n : Text) (cs : List Check)
    → no_hard_failure cs ≡ true
    → strict_loop (some n) cs ≡ retry_once (record { check_name = n })
unfolding strict_loop
strict-seen n [] h = refl
strict-seen n (c ∷ cs) h = ground (arith, strict-seen n cs)

strict-skip :
    (before : List Check) (seen : Option Text) (rest : List Check)
    → all_green before ≡ true
    → strict_loop seen (before ++ rest) ≡ strict_loop seen rest
unfolding strict_loop
strict-skip [] seen rest h = refl
strict-skip (c ∷ cs) none rest h = ground (arith, strict-skip cs none rest)
strict-skip (c ∷ cs) (some n) rest h = ground (arith, strict-skip cs (some n) rest)

-- Under STRICT a branch is retried if no check is red, amber or pending and some check is
-- transient; the retry names the first such check.
pub strict-retry :
    (b : Branch) (before : List Check) (c : Check) (after : List Check)
    → b.checks ≡ before ++ c ∷ after
    → all_green before ≡ true
    → c.status ≡ transient
    → no_hard_failure after ≡ true
    → can_merge b strict ≡ retry_once (record { check_name = c.name })
unfolding can_merge
strict-retry b before c after e h t k =
    rw (e, strict-skip before none (c ∷ after) h)
      (unfold strict_loop in rw t (strict-seen c.name after k))

strict-until :
    (before : List Check) (seen : Option Text) (c : Check) (after : List Check)
    → no_hard_failure before ≡ true
    → is_hard_failure c.status ≡ true
    → strict_loop seen (before ++ c ∷ after) ≡ blocked_by (failure c)
unfolding strict_loop
strict-until [] none c after h k = ground arith
strict-until [] (some n) c after h k = ground arith
strict-until (b ∷ before) none c after h k =
    ground (arith, strict-until before none c after, strict-until before (some b.name) c after)
strict-until (b ∷ before) (some n) c after h k =
    ground (arith, strict-until before (some n) c after)

-- Under STRICT the first red, amber or pending check blocks, whatever transient checks stand
-- before it; the reason has its name, and says whether it is required.
pub strict-blocked :
    (b : Branch) (before : List Check) (c : Check) (after : List Check)
    → b.checks ≡ before ++ c ∷ after
    → no_hard_failure before ≡ true
    → is_hard_failure c.status ≡ true
    → can_merge b strict ≡ blocked_by (failure c)
unfolding can_merge
strict-blocked b before c after e h k = rw e (strict-until before none c after h k)
