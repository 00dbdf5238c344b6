-- ===== src/Calendar/Slots/Open.antt =====
-- crates/conductr-calendar/src/reconcile.rs: which slots are offered, and that the fuel of the loop
-- over a window is enough.
use conductr.Prelude.{
  ℕ, zero, suc, ◌+◌, ◌*◌, ◌≤◌, ◌<◌, Text, List, [], ◌∷◌, ◌++◌, Bool, true, false, ◌&&◌, ◌||◌, leb,
  any, All, All-map, ◌≡◌, refl, arith, Bool-cases, inl, inr, Option-cases,
}
use conductr.Prelude.Sort.{sort_by-All, sort_by-IsOrderedBy, IsOrderedBy}
use conductr.Calendar.{parse_event_title, overlaps}
use conductr.Calendar.Slots.{
  CalendarEvent, Slot, Calendar, tags_of, is_open, is_blocked, is_occupied, slots_from, slots_in,
  slot_count, starts_before, compute_available_slots, slot_duration,
}

module _ {ℓ κ} {A : Type ℓ} (P : A → Type κ) where
  All-append : (xs ys : List A) → All P xs → All P ys → All P (xs ++ ys)
  All-append [] ys h k = k
  All-append (x ∷ xs) ys h k = (h.0, All-append xs ys h.1 k)

-- Within one of the windows.
abbrev pub is_within : List CalendarEvent → Slot → Bool
is_within windows slot = any (λ w. leb w.start slot.start && leb slot.end w.end) windows

abbrev pub IsAvailable : List CalendarEvent → Calendar → Slot → Type 0
IsAvailable windows cal slot =
    (slot.end ≡ slot.start + slot_duration)
    × (is_within windows slot ≡ true)
    × (is_blocked cal.blockers slot.start slot.end ≡ false)
    × (is_occupied cal.scheduled cal.occupied_event_ids slot.start slot.end ≡ false)
    × (cal.now ≤ slot.start)

is_open_inv :
    (cal : Calendar) (s e : ℕ)
    → is_open cal s e ≡ true
    → (is_blocked cal.blockers s e ≡ false)
      × (is_occupied cal.scheduled cal.occupied_event_ids s e ≡ false)
      × (cal.now ≤ s)
unfolding is_open
is_open_inv cal s e h = ground arith

within_window :
    (w : CalendarEvent) (start : ℕ)
    → w.start ≤ start
    → leb (start + slot_duration) w.end ≡ true
    → (((leb w.start start && leb (start + slot_duration) w.end) || false) ≡ true)
within_window w start h e = ground arith

past : (start end : ℕ) → end < start + slot_duration → leb (start + slot_duration) end ≡ false
past start end h = ground arith

module _ (cal : Calendar) (w : CalendarEvent) (tags : List Text) where
  slots_from-IsAvailable :
      (start fuel : ℕ)
      → w.start ≤ start
      → All (IsAvailable (w ∷ []) cal) (slots_from cal w.end tags start fuel)
  unfolding slots_from
  slots_from-IsAvailable start zero h = tt
  slots_from-IsAvailable start (suc fuel) h =
      let rest = slots_from-IsAvailable (start + slot_duration) fuel (omega arith) in
      elim (Bool-cases (leb (start + slot_duration) w.end)) [
        | inr e ↦ rw e tt
        | inl e ↦ elim (Bool-cases (is_open cal start (start + slot_duration))) [
          | inr o ↦ rw e (rw o rest)
          | inl o ↦ rw e (
              rw o (
                (
                  refl,
                  within_window w start h e,
                  (is_open_inv cal start (start + slot_duration) o).0,
                  (is_open_inv cal start (start + slot_duration) o).1,
                  (is_open_inv cal start (start + slot_duration) o).2,
                ),
                rest,
              ))
        ]
      ]

  -- More fuel gives no more slots.
  slots_from-enough :
      (start fuel more : ℕ)
      → fuel ≤ more
      → w.end < start + slot_duration * suc fuel
      → slots_from cal w.end tags start more ≡ slots_from cal w.end tags start fuel
  unfolding slots_from
  slots_from-enough start zero zero k h = refl
  slots_from-enough start zero (suc more) k h = rw (past start w.end (omega arith)) refl
  slots_from-enough start (suc fuel) zero k h = absurd (omega arith)
  slots_from-enough start (suc fuel) (suc more) k h =
      rw (slots_from-enough (start + slot_duration) fuel more (omega arith) (omega arith)) refl

pub or_true : (a b : Bool) → b ≡ true → (a || b) ≡ true
or_true a b h = ground arith

true_or : (a b : Bool) → (a || false) ≡ true → (a || b) ≡ true
true_or a b h = ground arith

-- The fuel that a window is given covers its length.
pub slots_from-slot_count :
    (cal : Calendar) (w : CalendarEvent) (tags : List Text) (more : ℕ)
    → slot_count w ≤ more
    → slots_from cal w.end tags w.start more ≡ slots_from cal w.end tags w.start (slot_count w)
slots_from-slot_count cal w tags more h =
    slots_from-enough cal w tags w.start (slot_count w) more h (omega arith)

widen :
    (cal : Calendar) (w : CalendarEvent) (windows : List CalendarEvent) (slot : Slot)
    → IsAvailable windows cal slot
    → IsAvailable (w ∷ windows) cal slot
widen cal w windows slot h = (
  h.0,
  or_true (leb w.start slot.start && leb slot.end w.end) (is_within windows slot) h.1,
  h.2,
  h.3,
  h.4,
)

widen_one :
    (cal : Calendar) (w : CalendarEvent) (windows : List CalendarEvent) (slot : Slot)
    → IsAvailable (w ∷ []) cal slot
    → IsAvailable (w ∷ windows) cal slot
widen_one cal w windows slot h = (
  h.0,
  true_or (leb w.start slot.start && leb slot.end w.end) (is_within windows slot) h.1,
  h.2,
  h.3,
  h.4,
)

slots_in-IsAvailable :
    (cal : Calendar) (windows : List CalendarEvent)
    → All (IsAvailable windows cal) (slots_in cal windows)
unfolding slots_in parse_event_title conductr.Calendar.is_conductr_event
slots_in-IsAvailable cal [] = tt
slots_in-IsAvailable cal (w ∷ windows) =
    let rest =
      All-map (widen cal w windows) (slots_in cal windows) (slots_in-IsAvailable cal windows) in
    elim (Option-cases (tags_of (parse_event_title w.title))) [
      | inl e ↦ rw e rest
      | inr (tags, e) ↦ rw e (
          All-append (IsAvailable (w ∷ windows) cal)
            (slots_from cal w.end tags w.start (slot_count w)) (slots_in cal windows)
            (All-map (widen_one cal w windows) (slots_from cal w.end tags w.start (slot_count w))
              (slots_from-IsAvailable cal w tags w.start (slot_count w) (omega arith)))
            rest)
    ]

-- Each slot that is offered lies in a window, is half an hour long, is not in the past, and overlaps
-- no blocker and no scheduled event, those passed as occupied left aside; and the slots are in the
-- order of their start.
pub compute_available_slots-IsAvailable :
    (windows : List CalendarEvent) (cal : Calendar)
    → All (IsAvailable windows cal) (compute_available_slots windows cal)
      × IsOrderedBy starts_before (compute_available_slots windows cal)
unfolding compute_available_slots
compute_available_slots-IsAvailable windows cal = (
  sort_by-All starts_before (IsAvailable windows cal) (slots_in cal windows)
      (slots_in-IsAvailable cal windows),
  sort_by-IsOrderedBy starts_before (λ a b h. ground arith) (λ a b c h k. ground arith)
      (slots_in cal windows),
)
