-- ===== src/Schedule/FromPlan/Check.antt =====
-- What the check of a plan says about its items.
use conductr.Prelude.{
  Text, List, [], ◌∷◌, ◌++◌, Bool, true, false, not, ◌&&◌, ◌||◌, map, all, text_mem, ◌≡◌, refl, sym,
  ap, subst, arith, Bool-cases, inl, inr,
}
use conductr.Prelude.Result.{Result, ok, err, ◌>>=◌, ◌>>◌}
use conductr.Schedule.FromPlan.{
  PlanItem, PlanError, duplicate_id, unknown_dep, find_duplicate, find_unknown_dep, find_unknown,
  validate_plan,
}

abbrev pub ids : List PlanItem → List Text
ids items = map (λ (item : PlanItem). item.id) items

-- No identifier is among those seen or repeated.
abbrev pub distinct_from : List Text → List PlanItem → Bool
distinct_from seen [] = true
distinct_from seen (item ∷ rest) =
    not (text_mem item.id seen) && distinct_from (item.id ∷ seen) rest

abbrev pub deps_known : List Text → List PlanItem → Bool
deps_known known items = all (λ (item : PlanItem). all (λ dep. text_mem dep known) item.deps) items

-- An item whose identifier is taken, and what stands before it.
abbrev pub DuplicateAt : List Text → Text → List PlanItem → Type 0
DuplicateAt seen id items =
    (before : List PlanItem) × (item : PlanItem) × (after : List PlanItem) × (items
      ≡ before ++ (item ∷ after))
    × (item.id ≡ id)
    × (distinct_from seen before ≡ true)
    × ((text_mem id seen || text_mem id (ids before)) ≡ true)

-- An item with a dependency that is not known, and what stands before both.
abbrev pub UnknownAt : List Text → Text → Text → List PlanItem → Type 0
UnknownAt known id dep items =
    (before : List PlanItem) × (item : PlanItem) × (after : List PlanItem) × (items
      ≡ before ++ (item ∷ after))
    × (item.id ≡ id)
    × (deps_known known before ≡ true)
    × (front : List Text) × (back : List Text) × (item.deps ≡ front ++ (dep ∷ back))
    × (all (λ d. text_mem d known) front ≡ true)
    × (text_mem dep known ≡ false)

abbrev Duplicates : List Text → List PlanItem → Result (List Text) PlanError → Type 0
Duplicates seen items (ok found) =
    (distinct_from seen items ≡ true)
    × ((d : Text) → text_mem d found ≡ (text_mem d seen || text_mem d (ids items)))
Duplicates seen items (err (duplicate_id id)) = DuplicateAt seen id items
Duplicates seen items (err (unknown_dep id dep)) = ⊥

Duplicates-next :
    (seen : List Text) (item : PlanItem) (rest : List PlanItem) (r : Result (List Text) PlanError)
    → text_mem item.id seen ≡ false
    → Duplicates (item.id ∷ seen) rest r
    → Duplicates seen (item ∷ rest) r
Duplicates-next seen item rest (ok found) e (d, f) = (ground arith, λ t. ground (arith, f t))
Duplicates-next seen item rest (err (duplicate_id id)) e (before, twin, after, p, q, d, m) = (
  item ∷ before,
  twin,
  after,
  ap (λ (l : List PlanItem). item ∷ l) p,
  q,
  ground arith,
  ground arith,
)
Duplicates-next seen item rest (err (unknown_dep id dep)) e h = h

find_duplicate-Duplicates :
    (seen : List Text) (items : List PlanItem) → Duplicates seen items (find_duplicate seen items)
unfolding find_duplicate
find_duplicate-Duplicates seen [] = (refl, λ d. ground arith)
find_duplicate-Duplicates seen (item ∷ rest) = elim (Bool-cases (text_mem item.id seen)) [
  | inl e ↦ rw e ([], item, rest, refl, refl, refl, ground arith)
  | inr e ↦ rw e (
      Duplicates-next seen item rest (find_duplicate (item.id ∷ seen) rest) e
        (find_duplicate-Duplicates (item.id ∷ seen) rest))
]

abbrev DepsVerdict : List Text → Text → List Text → Result (Unit {0}) PlanError → Type 0
DepsVerdict known id deps (ok done) = all (λ d. text_mem d known) deps ≡ true
DepsVerdict known id deps (err (duplicate_id twin)) = ⊥
DepsVerdict known id deps (err (unknown_dep item dep)) =
    (item ≡ id)
    × (front : List Text) × (back : List Text) × (deps ≡ front ++ (dep ∷ back))
    × (all (λ d. text_mem d known) front ≡ true)
    × (text_mem dep known ≡ false)

DepsVerdict-next :
    (known : List Text) (id first : Text) (deps : List Text) (r : Result (Unit {0}) PlanError)
    → text_mem first known ≡ true
    → DepsVerdict known id deps r
    → DepsVerdict known id (first ∷ deps) r
DepsVerdict-next known id first deps (ok done) e h = ground arith
DepsVerdict-next known id first deps (err (duplicate_id twin)) e h = h
DepsVerdict-next known id first deps (err (unknown_dep item dep)) e (q, front, back, p, f, u) =
    (q, first ∷ front, back, ap (λ (l : List Text). first ∷ l) p, ground arith, u)

find_unknown_dep-DepsVerdict :
    (known : List Text) (id : Text) (deps : List Text)
    → DepsVerdict known id deps (find_unknown_dep known id deps)
unfolding find_unknown_dep
find_unknown_dep-DepsVerdict known id [] = refl
find_unknown_dep-DepsVerdict known id (dep ∷ rest) = elim (Bool-cases (text_mem dep known)) [
  | inl e ↦ rw e (
      DepsVerdict-next known id dep rest (find_unknown_dep known id rest) e
        (find_unknown_dep-DepsVerdict known id rest))
  | inr e ↦ rw e (refl, [], rest, refl, refl, e)
]

abbrev UnknownVerdict : List Text → List PlanItem → Result (Unit {0}) PlanError → Type 0
UnknownVerdict known items (ok done) = deps_known known items ≡ true
UnknownVerdict known items (err (duplicate_id twin)) = ⊥
UnknownVerdict known items (err (unknown_dep id dep)) = UnknownAt known id dep items

UnknownVerdict-next :
    (known : List Text) (item : PlanItem) (rest : List PlanItem) (r : Result (Unit {0}) PlanError)
    → all (λ d. text_mem d known) item.deps ≡ true
    → UnknownVerdict known rest r
    → UnknownVerdict known (item ∷ rest) r
UnknownVerdict-next known item rest (ok done) e h = ground arith
UnknownVerdict-next known item rest (err (duplicate_id twin)) e h = h
UnknownVerdict-next known item rest (err (unknown_dep id dep)) e
      (before, bad, after, p, q, k, front, back, f, g, u) =
    (
      item ∷ before,
      bad,
      after,
      ap (λ (l : List PlanItem). item ∷ l) p,
      q,
      ground arith,
      front,
      back,
      f,
      g,
      u,
    )

UnknownVerdict-step :
    (known : List Text) (item : PlanItem) (rest : List PlanItem) (a b : Result (Unit {0}) PlanError)
    → DepsVerdict known item.id item.deps a
    → UnknownVerdict known rest b
    → UnknownVerdict known (item ∷ rest) (a >> b)
UnknownVerdict-step known item rest (ok done) b d h = UnknownVerdict-next known item rest b d h
UnknownVerdict-step known item rest (err (duplicate_id twin)) b d h = elim d [ ]
UnknownVerdict-step known item rest (err (unknown_dep id dep)) b (q, front, back, p, f, u) h =
    ([], item, rest, refl, sym q, refl, front, back, p, f, u)

find_unknown-UnknownVerdict :
    (known : List Text) (items : List PlanItem)
    → UnknownVerdict known items (find_unknown known items)
unfolding find_unknown
find_unknown-UnknownVerdict known [] = refl
find_unknown-UnknownVerdict known (item ∷ rest) =
    UnknownVerdict-step known item rest (find_unknown_dep known item.id item.deps)
      (find_unknown known rest) (find_unknown_dep-DepsVerdict known item.id item.deps)
      (find_unknown-UnknownVerdict known rest)

-- Only what is in the set counts, not in which order.
find_unknown_dep-same :
    (a b : List Text) (id : Text) (deps : List Text)
    → ((d : Text) → text_mem d a ≡ text_mem d b)
    → find_unknown_dep a id deps ≡ find_unknown_dep b id deps
unfolding find_unknown_dep
find_unknown_dep-same a b id [] e = refl
find_unknown_dep-same a b id (dep ∷ rest) e = rw (e dep, find_unknown_dep-same a b id rest e) refl

find_unknown-same :
    (a b : List Text) (items : List PlanItem)
    → ((d : Text) → text_mem d a ≡ text_mem d b)
    → find_unknown a items ≡ find_unknown b items
unfolding find_unknown
find_unknown-same a b [] e = refl
find_unknown-same a b (item ∷ rest) e =
    rw (find_unknown_dep-same a b item.id item.deps e, find_unknown-same a b rest e) refl

-- What each result of the check says.
abbrev pub Verdict : List PlanItem → Result (Unit {0}) PlanError → Type 0
Verdict items (ok done) = (distinct_from [] items ≡ true) × (deps_known (ids items) items ≡ true)
Verdict items (err (duplicate_id id)) = DuplicateAt [] id items
Verdict items (err (unknown_dep id dep)) =
    (distinct_from [] items ≡ true) × UnknownAt (ids items) id dep items

Verdict-distinct :
    (items : List PlanItem) (r : Result (Unit {0}) PlanError)
    → distinct_from [] items ≡ true
    → UnknownVerdict (ids items) items r
    → Verdict items r
Verdict-distinct items (ok done) d h = (d, h)
Verdict-distinct items (err (duplicate_id id)) d h = elim h [ ]
Verdict-distinct items (err (unknown_dep id dep)) d h = (d, h)

Verdict-bind :
    (items : List PlanItem) (r : Result (List Text) PlanError)
    → Duplicates [] items r
    → Verdict items (r >>= (λ seen. find_unknown seen items))
Verdict-bind items (ok seen) (d, f) = Verdict-distinct items (find_unknown seen items) d (
    subst (UnknownVerdict (ids items) items) (sym (find_unknown-same seen (ids items) items f))
      (find_unknown-UnknownVerdict (ids items) items))
Verdict-bind items (err (duplicate_id id)) h = h
Verdict-bind items (err (unknown_dep id dep)) h = elim h [ ]

-- The check of a plan accepts only plans in which no identifier stands twice and every dependency is
-- an identifier of the plan. It reports an identifier as a duplicate only for the first item whose
-- identifier an earlier item has, and otherwise an item's dependency as unknown only for the first one
-- that is none of the identifiers, in the order of the items and of their dependencies.
pub validate_plan-Verdict : (items : List PlanItem) → Verdict items (validate_plan items)
unfolding validate_plan
validate_plan-Verdict items =
    Verdict-bind items (find_duplicate [] items) (find_duplicate-Duplicates [] items)
