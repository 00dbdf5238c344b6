-- ===== src/Calendar/Slots/Offered.antt =====
-- crates/conductr-calendar/src/reconcile.rs: which half hours of the windows are offered.
use conductr.Prelude.{
  ℕ, zero, suc, ◌+◌, ◌-◌, ◌*◌, ◌/◌, ◌≤◌, Text, List, [], ◌∷◌, ◌++◌, none, some, Bool, true, false,
  ◌&&◌, ◌||◌, leb, leb→le, any, ◌≡◌, refl, arith, Bool-cases, inl, inr, Option-cases, ==_iff, ◌==◌,
  ◌%◌, sym, subst, ◌⊎◌, ◌∙◌,
}
use mathlib.Core.Bool.{false≢true}
use conductr.Prelude.Sort.{any-sort_by}
use conductr.Calendar.{parse_event_title, overlaps}
use conductr.Calendar.Slots.{
  CalendarEvent, Slot, Calendar, tags_of, is_open, slots_from, slots_in, slot_count, starts_before,
  compute_available_slots, slot_duration,
}
use conductr.Calendar.Slots.Open.{or_true}

earlier :
    (start t k end : ℕ)
    → t ≡ start + slot_duration * suc k
    → leb (t + slot_duration) end ≡ true
    → leb (start + slot_duration) end ≡ true
earlier start t k end e h = ground arith

abbrev pub starts_at : ℕ → Slot → Bool
starts_at t slot = slot.start == t

or_assoc : (a b c : Bool) → (a || (b || c)) ≡ ((a || b) || c)
or_assoc a b c = ground arith

or_cases : (a b : Bool) → (a || b) ≡ true → (a ≡ true) ⊎ (b ≡ true)
or_cases a b h = ground arith

or_left : (a b : Bool) → a ≡ true → (a || b) ≡ true
or_left a b h = ground arith

at_start : (start t : ℕ) → t ≡ start + slot_duration * 0 → t ≡ start
at_start start t e = omega arith

module _ (cal : Calendar) (w : CalendarEvent) (tags : List Text) (t : ℕ)
    (o : is_open cal t (t + slot_duration) ≡ true)
    (fits : leb (t + slot_duration) w.end ≡ true) where
  slots_from-any :
      (start fuel k : ℕ)
      → suc k ≤ fuel
      → t ≡ start + slot_duration * k
      → any (starts_at t) (slots_from cal w.end tags start fuel) ≡ true
  unfolding slots_from
  slots_from-any start zero k h e = absurd (omega arith)
  slots_from-any start (suc fuel) zero h e =
      let s = at_start start t e in
      rw (subst (λ a. leb (a + slot_duration) w.end ≡ true) s fits) (
        rw (subst (λ a. is_open cal a (a + slot_duration) ≡ true) s o) (
          or_left (start == t)
            (any (starts_at t) (slots_from cal w.end tags (start + slot_duration) fuel))
            ((==_iff start t).1 (sym s))))
  slots_from-any start (suc fuel) (suc k) h e =
      let rest = slots_from-any (start + slot_duration) fuel k (omega arith) (omega arith) in
      rw (earlier start t k w.end e fits)
        (elim (Bool-cases (is_open cal start (start + slot_duration))) [
          | inl f ↦ rw f (
              or_true (start == t)
                (any (starts_at t) (slots_from cal w.end tags (start + slot_duration) fuel)) rest)
          | inr f ↦ rw f rest
        ])

abbrev is_window : CalendarEvent → Bool
is_window w = elim (tags_of (parse_event_title w.title)) [ none ↦ false | some tags ↦ true ]

-- The window is cut into half hours from its start, and one of them starts at `t`.
abbrev pub has_slot : ℕ → CalendarEvent → Bool
has_slot t w =
    is_window w && (leb w.start t && ((t - w.start) % 1800 == 0 && leb (t + slot_duration) w.end))

any-append : (p : Slot → Bool) (xs ys : List Slot) → any p (xs ++ ys) ≡ (any p xs || any p ys)
any-append p [] ys = refl
any-append p (x ∷ xs) ys = rw (any-append p xs ys) (or_assoc (p x) (any p xs) (any p ys))

not_window : (w : CalendarEvent) → tags_of (parse_event_title w.title) ≡ none → is_window w ≡ false
unfolding parse_event_title conductr.Calendar.is_conductr_event
not_window w e = rw e refl

has_slot_inv :
    (t : ℕ) (w : CalendarEvent)
    → has_slot t w ≡ true
    → (is_window w ≡ true)
      × (w.start ≤ t)
      × ((t - w.start) % 1800 ≡ 0)
      × (leb (t + slot_duration) w.end ≡ true)
has_slot_inv t w h = ground arith

window_slot :
    (cal : Calendar) (t : ℕ) (w : CalendarEvent) (tags : List Text)
    → is_open cal t (t + slot_duration) ≡ true
    → has_slot t w ≡ true
    → any (starts_at t) (slots_from cal w.end tags w.start (slot_count w)) ≡ true
window_slot cal t w tags o h =
    let inv = has_slot_inv t w h in
    let fits = leb→le (t + slot_duration) w.end inv.3 in
    slots_from-any cal w tags t o inv.3 w.start (slot_count w) ((t - w.start) / 1800)
      (omega (arith, fits, inv.1, inv.2)) (omega (arith, inv.1, inv.2))

slots_in-any :
    (cal : Calendar) (t : ℕ) (windows : List CalendarEvent)
    → is_open cal t (t + slot_duration) ≡ true
    → any (has_slot t) windows ≡ true
    → any (starts_at t) (slots_in cal windows) ≡ true
unfolding slots_in parse_event_title conductr.Calendar.is_conductr_event
slots_in-any cal t [] o h = h
slots_in-any cal t (w ∷ windows) o h = elim (or_cases (has_slot t w) (any (has_slot t) windows) h) [
  | inl k ↦ elim (Option-cases (tags_of (parse_event_title w.title))) [
    | inl e ↦ absurd (false≢true (sym (not_window w e) ∙ (has_slot_inv t w k).0))
    | inr (tags, e) ↦
        rw
          (
            e,
            any-append (starts_at t) (slots_from cal w.end tags w.start (slot_count w))
                (slots_in cal windows),
          )
          (or_left (any (starts_at t) (slots_from cal w.end tags w.start (slot_count w)))
            (any (starts_at t) (slots_in cal windows)) (window_slot cal t w tags o k))
  ]
  | inr k ↦ elim (Option-cases (tags_of (parse_event_title w.title))) [
    | inl e ↦ rw e (slots_in-any cal t windows o k)
    | inr (tags, e) ↦
        rw
          (
            e,
            any-append (starts_at t) (slots_from cal w.end tags w.start (slot_count w))
                (slots_in cal windows),
          )
          (or_true (any (starts_at t) (slots_from cal w.end tags w.start (slot_count w)))
            (any (starts_at t) (slots_in cal windows)) (slots_in-any cal t windows o k))
  ]
]

-- Each half hour of a window, counted from the window's start, that nothing blocks and that is not in
-- the past is offered.
pub compute_available_slots-any :
    (windows : List CalendarEvent) (cal : Calendar) (t : ℕ)
    → is_open cal t (t + slot_duration) ≡ true
    → any (has_slot t) windows ≡ true
    → any (starts_at t) (compute_available_slots windows cal) ≡ true
unfolding compute_available_slots
compute_available_slots-any windows cal t o h =
    rw (any-sort_by starts_before (starts_at t) (slots_in cal windows))
      (slots_in-any cal t windows o h)
