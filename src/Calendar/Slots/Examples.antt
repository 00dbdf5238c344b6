-- ===== src/Calendar/Slots/Examples.antt =====
-- A window of an hour with a decision in its first half.
use conductr.Prelude.{Text, [], ◌∷◌, none, true, ◌≡◌, refl, codes, any, All, List}
use conductr.Prelude.Sort.{sort_by, IsOrderedBy}
use conductr.Calendar.{parse_event_title, is_conductr_event, event_of, overlaps, window_matches_tag}
use conductr.Calendar.Slots.{
  CalendarEvent, Calendar, starts_before, is_open, slots_from, slots_in, compute_available_slots,
  slot_is_in_eligible_window,
}
use conductr.Calendar.Slots.Open.{IsAvailable, compute_available_slots-IsAvailable}
use conductr.Calendar.Slots.Offered.{starts_at, compute_available_slots-any}

abbrev hour : CalendarEvent
hour = record {
  id = codes "w";
  title = codes "[conductr:window]";
  start = 3600;
  end = 7200;
  description = none;
}

abbrev meeting : CalendarEvent
meeting = record {
  id = codes "d";
  title = codes "[conductr:*] decision: name";
  start = 3600;
  end = 5400;
  description = none;
}

abbrev with_occupied : List Text → Calendar
with_occupied ids = record {
  blockers = [];
  scheduled = meeting ∷ [];
  occupied_event_ids = ids;
  now = 600;
}

compute_available_slots-IsAvailable_example :
    All
      (IsAvailable (hour ∷ []) (with_occupied []))
      (compute_available_slots (hour ∷ []) (with_occupied []))
    × IsOrderedBy starts_before (compute_available_slots (hour ∷ []) (with_occupied []))
compute_available_slots-IsAvailable_example =
    compute_available_slots-IsAvailable (hour ∷ []) (with_occupied [])

compute_available_slots-any_example :
    any (starts_at 5400) (compute_available_slots (hour ∷ []) (with_occupied [])) ≡ true
unfolding is_open overlaps parse_event_title is_conductr_event event_of
compute_available_slots-any_example =
    compute_available_slots-any (hour ∷ []) (with_occupied []) 5400 refl refl

-- A decision that is kept is passed as occupied, and its half hour is offered again.
kept_decision_test :
    any (starts_at 3600) (compute_available_slots (hour ∷ []) (with_occupied (codes "d" ∷ [])))
    ≡ true
unfolding is_open overlaps parse_event_title is_conductr_event event_of compute_available_slots
    slots_in slots_from sort_by
kept_decision_test = refl

slot_is_in_eligible_window_test : slot_is_in_eligible_window 3600 5400 (hour ∷ []) [] none ≡ true
unfolding slot_is_in_eligible_window overlaps parse_event_title is_conductr_event event_of
    window_matches_tag
slot_is_in_eligible_window_test = refl
