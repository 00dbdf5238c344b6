-- ===== src/Calendar/Examples.antt =====
-- Titles and descriptions of events.
use conductr.Prelude.{ℕ, Text, none, some, [], ◌∷◌, ◌≡◌, refl, codes}
use conductr.Calendar.{
  window, decision, parse_event_title, is_conductr_event, event_of, scheduled_item,
  extract_conductr_id, identity_lines,
}

parse_window_test :
    parse_event_title (codes "[conductr:window:auth, api,] Morning")
    ≡ window (codes "auth" ∷ codes "api" ∷ [])
unfolding parse_event_title is_conductr_event event_of
parse_window_test = refl

parse_decision_test :
    parse_event_title (codes "[conductr:*] decision: which database?")
    ≡ decision none (codes "which database?")
unfolding parse_event_title is_conductr_event event_of scheduled_item
parse_decision_test = refl

abbrev noon : ℕ → Text
noon time = codes "2025-01-01T12:00:00+00:00"

extract_conductr_id_test :
    extract_conductr_id (identity_lines noon (codes "42") 0) ≡ some (codes "42")
unfolding extract_conductr_id identity_lines
extract_conductr_id_test = refl
