-- ===== src/Orchestrate/Dispatch/Slots.antt =====
-- The choice of a slot, and the names of slots.
use conductr.Prelude.{
  ℕ, zero, suc, ◌+◌, ◌<◌, ◌≤◌, ◌^◌, Text, List, [], ◌∷◌, ◌++◌, Option, none, some, true, false,
  contains, strip_prefix, ◌≡◌, ◌≢◌, refl, subst, sym, arith, Bool-cases, inl, inr, ◌∙◌, ==_refl,
  filter_map, contains-count, count-sort, sort, ◌==◌, Option-cases, ltb, ltb→lt,
}
use mathlib.Core.Bool.{false≢true}
use conductr.Prelude.Decimal.{show_nat, parse_u64-show_nat}
use conductr.Core.Sessions.{TmuxSession}
use conductr.Orchestrate.Dispatch.{
  SlotKind, prefix, slot_name, slot_index, active_slot_indices, first_free, next_free_slot,
}

-- What the search over `start..start + count` answers.
abbrev IsFirstFree : List ℕ → ℕ → ℕ → Option ℕ → Type 0
IsFirstFree active start count none =
    (n : ℕ) → start ≤ n → n < start + count → contains n active ≡ true
IsFirstFree active start count (some slot) =
    (start ≤ slot)
    × (slot < start + count)
    × (contains slot active ≡ false)
    × ((n : ℕ) → start ≤ n → n < slot → contains n active ≡ true)

IsFirstFree-later :
    (active : List ℕ) (start count : ℕ) (o : Option ℕ)
    → contains start active ≡ true
    → IsFirstFree active (start + 1) count o
    → IsFirstFree active start (suc count) o
IsFirstFree-later active start count none c h = λ n lo hi. elim (Bool-cases (start == n)) [
  | inl e ↦ ground arith
  | inr e ↦ h n (ground arith) (omega arith)
]
IsFirstFree-later active start count (some slot) c h = (
  omega arith,
  omega arith,
  h.2,
  λ n lo hi. elim (Bool-cases (start == n)) [
    | inl e ↦ ground arith
    | inr e ↦ h.3 n (ground arith) hi
  ],
)

first_free-IsFirstFree :
    (active : List ℕ) (start count : ℕ)
    → IsFirstFree active start count (first_free active start count)
unfolding first_free
first_free-IsFirstFree active start zero = λ n lo hi. absurd (omega arith)
first_free-IsFirstFree active start (suc count) = elim (Bool-cases (contains start active)) [
  | inl e ↦ rw e (
      IsFirstFree-later active start count (first_free active (start + 1) count) e
        (first_free-IsFirstFree active (start + 1) count))
  | inr e ↦ rw e (omega arith, omega arith, e, λ n lo hi. absurd (omega arith))
]

module _ (sessions : List TmuxSession) (kind : SlotKind) (max : ℕ) where
  abbrev active : List ℕ
  active = active_slot_indices sessions kind

  -- A slot that is returned is one of `1..=max`, and is not active.
  pub next_free_slot-free :
      (slot : ℕ)
      → next_free_slot sessions kind max ≡ some slot
      → (1 ≤ slot) × (slot ≤ max) × (contains slot active ≡ false)
  unfolding next_free_slot
  next_free_slot-free slot e =
      let found = subst (IsFirstFree active 1 max) e (first_free-IsFirstFree active 1 max) in
      (found.0, omega (arith, found.1), found.2)

  -- If one of `1..=max` is not active, a slot is returned: it is no greater than that one, it is one
  -- of `1..=max` too, and it is not active.
  pub next_free_slot-least :
      (n : ℕ)
      → 1 ≤ n
      → n ≤ max
      → contains n active ≡ false
      → (slot : ℕ) × (next_free_slot sessions kind max ≡ some slot)
        × (slot ≤ n)
        × (1 ≤ slot)
        × (slot ≤ max)
        × (contains slot active ≡ false)
  unfolding next_free_slot
  next_free_slot-least n lo hi free =
      let answer = first_free-IsFirstFree active 1 max in
      elim (Option-cases (first_free active 1 max)) [
        | inl e ↦
            let taken = subst (IsFirstFree active 1 max) e answer in
            absurd (false≢true (sym free ∙ taken n lo (omega arith)))
        | inr (slot, e) ↦
            let found = subst (IsFirstFree active 1 max) e answer in
            let free_slot = next_free_slot-free slot e in
            (
              slot,
              e,
              elim (Bool-cases (ltb n slot)) [
                | inl below ↦ absurd (false≢true (sym free ∙ found.3 n lo (ltb→lt n slot below)))
                | inr above ↦ ground arith
              ],
              free_slot.0,
              free_slot.1,
              free_slot.2,
            )
      ]

strip_prefix-append : (p s : Text) → strip_prefix p (p ++ s) ≡ some s
strip_prefix-append [] s = refl
strip_prefix-append (c ∷ p) s = rw (==_refl c) (strip_prefix-append p s)

slot_index-slot_name :
    (kind : SlotKind) (n : ℕ) (s : TmuxSession)
    → n < 2 ^ 64
    → s.name ≡ slot_name kind n
    → slot_index kind s ≡ some n
unfolding slot_index slot_name
slot_index-slot_name kind n s h e =
    let stripped : strip_prefix (prefix kind) s.name ≡ some (show_nat n) =
      subst (λ t. strip_prefix (prefix kind) t ≡ some (show_nat n)) (sym e)
        (strip_prefix-append (prefix kind) (show_nat n)) in
    ground (arith, parse_u64-show_nat n h)

contains-filter_map :
    (kind : SlotKind) (n : ℕ) (before : List TmuxSession) (s : TmuxSession)
    (after : List TmuxSession)
    → slot_index kind s ≡ some n
    → contains n (filter_map (slot_index kind) (before ++ s ∷ after)) ≡ true
contains-filter_map kind n [] s after h = ground arith
contains-filter_map kind n (b ∷ before) s after h =
    ground (arith, contains-filter_map kind n before s after)

name-active :
    (kind : SlotKind) (n : ℕ) (before : List TmuxSession) (s : TmuxSession)
    (after : List TmuxSession)
    → n < 2 ^ 64
    → s.name ≡ slot_name kind n
    → contains n (active_slot_indices (before ++ s ∷ after) kind) ≡ true
unfolding active_slot_indices
name-active kind n before s after h e =
    let slots = filter_map (slot_index kind) (before ++ s ∷ after) in
    ground (
      arith,
      contains-filter_map kind n before s after (slot_index-slot_name kind n s h e),
      contains-count n slots,
      contains-count n (sort slots),
      count-sort n slots,
    )

-- If some session has the name of a slot, that slot is among the active ones, and it is not the one
-- that is handed out, whatever the size of the pool.
pub slot_name-active :
    (kind : SlotKind) (n : ℕ) (before : List TmuxSession) (s : TmuxSession)
    (after : List TmuxSession) (max : ℕ)
    → n < 2 ^ 64
    → s.name ≡ slot_name kind n
    → (contains n (active_slot_indices (before ++ s ∷ after) kind) ≡ true)
      × (next_free_slot (before ++ s ∷ after) kind max ≢ some n)
slot_name-active kind n before s after max h e =
    let active = name-active kind n before s after h e in
    (
      active,
      λ given.
          false≢true (sym (next_free_slot-free (before ++ s ∷ after) kind max n given).2 ∙ active),
    )
