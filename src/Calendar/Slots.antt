-- ===== src/Calendar/Slots.antt =====
-- crates/conductr-calendar/src/reconcile.rs: the slots that windows leave open, and whether a slot
-- may stay. The loop over a window is on fuel: the number of slots that the window is long.
pub mod Open
pub mod Offered
mod Examples
use conductr.Prelude.{
  ℕ, zero, suc, ◌+◌, ◌-◌, ◌/◌, Text, List, [], ◌∷◌, ◌++◌, Option, none, some, Bool, true, false,
  not, ◌&&◌, if◌then◌else◌, leb, text_eq, any,
}
use conductr.Prelude.Sort.{sort_by}
use conductr.Calendar.{EventKind, window, parse_event_title, overlaps, window_matches_tag}

pub record CalendarEvent : Type 0 where
  pub id : Text
  pub title : Text
  pub start : ℕ
  pub end : ℕ
  pub description : Option Text

-- Half an hour.
abbrev pub slot_duration : ℕ
slot_duration = 1800

pub record Slot : Type 0 where
  pub start : ℕ
  pub end : ℕ
  pub window_tags : List Text

abbrev pub tags_of : EventKind → Option (List Text)
tags_of (window tags) = some tags
tags_of _ = none

abbrev pub is_blocked : List CalendarEvent → ℕ → ℕ → Bool
is_blocked blockers slot_start slot_end =
    any (λ b. overlaps slot_start slot_end b.start b.end) blockers

abbrev pub is_occupied : List CalendarEvent → List Text → ℕ → ℕ → Bool
is_occupied scheduled occupied_event_ids slot_start slot_end =
    any
      (λ s.
        not (any (text_eq s.id) occupied_event_ids) && overlaps slot_start slot_end s.start s.end)
      scheduled

-- What blocks a slot: the blockers, the scheduled events without those that are passed as occupied,
-- and the present.
pub record Calendar : Type 0 where
  pub blockers : List CalendarEvent
  pub scheduled : List CalendarEvent
  pub occupied_event_ids : List Text
  pub now : ℕ

unfoldable pub is_open : Calendar → ℕ → ℕ → Bool
is_open cal slot_start slot_end =
    not (is_blocked cal.blockers slot_start slot_end)
    && (not (is_occupied cal.scheduled cal.occupied_event_ids slot_start slot_end)
        && leb cal.now slot_start)

-- The loop over one window.
unfoldable pub slots_from : Calendar → ℕ → List Text → ℕ → ℕ → List Slot
slots_from cal window_end window_tags slot_start zero = []
slots_from cal window_end window_tags slot_start (suc fuel) =
    let slot_end = slot_start + slot_duration in
    let rest = slots_from cal window_end window_tags slot_end fuel in
    if leb slot_end window_end
    then (if is_open cal slot_start slot_end
        then record { start = slot_start; end = slot_end; window_tags = window_tags } ∷ rest
        else rest)
    else []

abbrev pub slot_count : CalendarEvent → ℕ
slot_count w = (w.end - w.start) / 1800

unfoldable pub slots_in : Calendar → List CalendarEvent → List Slot
slots_in cal [] = []
slots_in cal (w ∷ windows) =
    let rest = slots_in cal windows in
    elim (tags_of (parse_event_title w.title)) [
      | some window_tags ↦ slots_from cal w.end window_tags w.start (slot_count w) ++ rest
      | none ↦ rest
    ]

abbrev pub starts_before : Slot → Slot → Bool
starts_before s t = leb s.start t.start

unfoldable pub compute_available_slots : List CalendarEvent → Calendar → List Slot
compute_available_slots windows cal = sort_by starts_before (slots_in cal windows)

unfoldable pub slot_is_in_eligible_window :
    ℕ → ℕ → List CalendarEvent → List CalendarEvent → Option Text → Bool
slot_is_in_eligible_window slot_start slot_end [] blockers issue_tag = false
slot_is_in_eligible_window slot_start slot_end (w ∷ windows) blockers issue_tag =
    let later = slot_is_in_eligible_window slot_start slot_end windows blockers issue_tag in
    elim (tags_of (parse_event_title w.title)) [
      | none ↦ later
      | some tags ↦
          if window_matches_tag tags issue_tag
          then (if leb w.start slot_start && leb slot_end w.end
              then (if is_blocked blockers slot_start slot_end then later else true)
              else later)
          else later
    ]
