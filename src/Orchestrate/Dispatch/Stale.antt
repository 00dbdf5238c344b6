-- ===== src/Orchestrate/Dispatch/Stale.antt =====
-- How many sessions are released, and which.
use conductr.Prelude.{ℕ, Text, List, filter, take, map}
use conductr.Prelude.Sort.{sort_by}
use conductr.Core.Sessions.{TmuxSession}
use conductr.Orchestrate.Dispatch.{SlotKind, is_slot, by_name_descending}

-- The sessions in the order in which they are released.
pub release_order : SlotKind → List TmuxSession → List TmuxSession
release_order kind sessions = sort_by by_name_descending (filter (is_slot kind) sessions)

-- The first `n` names of the list.
pub first_names : ℕ → List TmuxSession → List Text
first_names n sessions = map (λ (s : TmuxSession). s.name) (take n sessions)
