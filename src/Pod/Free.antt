-- ===== src/Pod/Free.antt =====
-- crates/conductr-pod/src/free.rs: the idle session that has been untouched the longest.
use conductr.Prelude.{
  List, [], ◌∷◌, ◌++◌, Option, none, some, Bool, true, false, not, ◌&&◌, ◌||◌, if◌then◌else◌,
  filter, all, ◌≡◌, ◌↔◌, refl, ap, arith, Bool-cases, inl, inr, subst,
}
use mathlib.Core.Option.{some-injective}
use conductr.Prelude.Int.{int_le, int_le_refl, int_le_total, int_le_trans}
use conductr.Core.Sessions.{Diagnosis, Health}

pub record FreeOpts : Type 0 where
  pub include_attached : Bool

abbrev pub is_idle : Health → Bool
is_idle (Health.idle m t) = true
is_idle _ = false

-- The two filters.
abbrev pub is_free : FreeOpts → Diagnosis → Bool
is_free opts d = is_idle d.health && (opts.include_attached || not d.session.attached)

abbrev pub no_longer : Diagnosis → Diagnosis → Bool
no_longer a b = int_le a.idle_seconds b.idle_seconds

-- `max_by_key`, from a first element on: of equal ones the last.
unfoldable pub max_from : Diagnosis → List Diagnosis → Diagnosis
max_from best [] = best
max_from best (d ∷ rest) = if no_longer best d then max_from d rest else max_from best rest

abbrev pub max_by_idle : List Diagnosis → Option Diagnosis
max_by_idle [] = none
max_by_idle (d ∷ rest) = some (max_from d rest)

unfoldable pub pick_idle : List Diagnosis → FreeOpts → Option Diagnosis
pick_idle diagnoses opts = max_by_idle (filter (is_free opts) diagnoses)

-- Among the listed, `d` stands where no earlier one was idle for longer, and each later one was idle
-- for less long.
abbrev pub IsLastLongest : Diagnosis → List Diagnosis → Type 0
IsLastLongest d listed =
    (before : List Diagnosis) × (after : List Diagnosis) × (listed ≡ before ++ d ∷ after)
    × (all (λ x. no_longer x d) before ≡ true)
    × (all (λ x. not (no_longer d x)) after ≡ true)

-- An element that is shorter than the first does not change which is the last longest.
IsLastLongest-skip :
    (best d : Diagnosis) (rest : List Diagnosis) (top : Diagnosis)
    → no_longer best d ≡ false
    → no_longer best top ≡ true
    → IsLastLongest top (best ∷ rest)
    → IsLastLongest top (best ∷ d ∷ rest)
IsLastLongest-skip best d rest top e above ([], after, same, earlier, later) =
    let first : best ≡ top = cc in
    let others : rest ≡ after = cc in
    let shorter : no_longer top d ≡ false = subst (λ b. no_longer b d ≡ false) first e in
    ([], d ∷ after, cc, refl, ground arith)
IsLastLongest-skip best d rest top e above (b ∷ before, after, same, earlier, later) =
    let first : best ≡ b = cc in
    let others : rest ≡ before ++ top ∷ after = cc in
    let below = int_le_total best.idle_seconds d.idle_seconds e in
    let reached = int_le_trans d.idle_seconds best.idle_seconds top.idle_seconds below above in
    (best ∷ d ∷ before, after, ap (λ l. best ∷ d ∷ l) others, ground arith, later)

max_from-IsLastLongest :
    (best : Diagnosis) (rest : List Diagnosis)
    → IsLastLongest (max_from best rest) (best ∷ rest)
      × (no_longer best (max_from best rest) ≡ true)
unfolding max_from
max_from-IsLastLongest best [] = (([], [], refl, refl, refl), int_le_refl best.idle_seconds)
max_from-IsLastLongest best (d ∷ rest) = elim (Bool-cases (no_longer best d)) [
  | inl e ↦
      let ((before, after, same, earlier, later), above) = max_from-IsLastLongest d rest in
      let reached =
        int_le_trans best.idle_seconds d.idle_seconds (max_from d rest).idle_seconds e above in
      rw e ((best ∷ before, after, ap (λ l. best ∷ l) same, ground arith, later), reached)
  | inr e ↦
      let (split, above) = max_from-IsLastLongest best rest in
      rw e (IsLastLongest-skip best d rest (max_from best rest) e above split, above)
]

longest :
    (listed : List Diagnosis) (d : Diagnosis) → max_by_idle listed ≡ some d → IsLastLongest d listed
longest [] d h = cc
longest (x ∷ rest) d h =
    subst (λ t. IsLastLongest t (x ∷ rest)) (some-injective _ _ h) (max_from-IsLastLongest x rest).0

nothing : (listed : List Diagnosis) → (max_by_idle listed ≡ none) ↔ (listed ≡ [])
nothing [] = (λ _. refl, λ _. refl)
nothing (x ∷ rest) = (λ h. cc, λ h. cc)

-- The session that is picked is idle, and not attached unless attached ones are included. No other
-- such session was idle for longer, and each that stands later in the list was idle for less long.
-- None is picked exactly if there is no such session.
pub pick_idle-longest :
    (diagnoses : List Diagnosis) (opts : FreeOpts)
    → ((d : Diagnosis)
        → pick_idle diagnoses opts ≡ some d
        → IsLastLongest d (filter (is_free opts) diagnoses))
      × ((pick_idle diagnoses opts ≡ none) ↔ (filter (is_free opts) diagnoses ≡ []))
unfolding pick_idle
pick_idle-longest diagnoses opts = (
  λ d h. longest (filter (is_free opts) diagnoses) d h,
  nothing (filter (is_free opts) diagnoses),
)
