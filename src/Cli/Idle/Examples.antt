-- ===== src/Cli/Idle/Examples.antt =====
-- A scan in turn, and a report with two uncovered ranges.
use conductr.Prelude.{ℕ, [], ◌∷◌, true, ◌≡◌, refl, codes}
use conductr.Prelude.Sort.{sort_by}
use conductr.Cli.Idle.{Segment, pick_module, uncovered_ranges, ranges_from}

pick_module_test : pick_module (codes "conductr-setup") ≡ codes "conductr-orchestrate"
unfolding pick_module
pick_module_test = refl

abbrev seg : ℕ → ℕ → Segment
seg line count = record { line = line; count = count; has_count = true }

uncovered_ranges_test :
    uncovered_ranges (seg 3 1 ∷ seg 5 0 ∷ seg 6 0 ∷ seg 9 2 ∷ seg 12 0 ∷ seg 13 0 ∷ [])
    ≡ (5, 8) ∷ (12, 13) ∷ []
unfolding uncovered_ranges ranges_from sort_by
uncovered_ranges_test = refl
