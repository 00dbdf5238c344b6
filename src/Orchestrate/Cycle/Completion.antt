-- ===== src/Orchestrate/Cycle/Completion.antt =====
-- `run_to_completion`: passes until there is nothing left, or until `max_cycles` of them were made.
-- `worlds n` is the world as pass `n` finds it. Without `max_cycles` the loop need not end, so it
-- takes fuel; one more than `max_cycles` is enough.
use conductr.Prelude.{
  ℕ, zero, suc, ◌+◌, ◌%◌, ◌^◌, ◌<◌, List, [], ◌∷◌, ◌++◌, Option, none, some, Bool, true, false, not,
  ◌&&◌, ◌||◌, if◌then◌else◌, leb, ltb, ◌≡◌,
}
use conductr.Prelude.Result.{Result, ok, err}
use conductr.Core.Types.{CycleReport}
use conductr.Orchestrate.Cycle.{World, Setup, Cycle}
use conductr.Orchestrate.Cycle.Pass.{run_cycle, nothing_left}

-- A list that the pass has to read could not be read.
pub data CycleError : Type 0 where
  unreadable : CycleError

-- `cycle += 1`, on a `u32`.
abbrev pub next_cycle : ℕ → ℕ
next_cycle cycle = (cycle + 1) % 2 ^ 32

abbrev pub reached : Option ℕ → ℕ → Bool
reached none cycle = false
reached (some max) cycle = leb max cycle

unfoldable pub run_loop :
    (ℕ → World)
    → Setup
    → ℕ
    → ℕ
    → List (ℕ × ℕ)
    → List CycleReport
    → Option (Result (List CycleReport) CycleError)
run_loop worlds setup zero cycle since history = none
run_loop worlds setup (suc fuel) cycle since history = elim (run_cycle (worlds cycle) setup since) [
  | none ↦ some (err unreadable)
  | some s ↦
      let history' = history ++ s.report ∷ [] in
      let rest =
        run_loop worlds setup fuel (next_cycle cycle) s.soft_chord_blocked_since history' in
      if nothing_left s.report || reached setup.config.max_cycles (next_cycle cycle)
      then some (ok history')
      else rest
]

unfoldable pub run_to_completion :
    (ℕ → World) → Setup → ℕ → List (ℕ × ℕ) → Option (Result (List CycleReport) CycleError)
run_to_completion worlds setup fuel since = run_loop worlds setup fuel 0 since []

-- The reports of passes `k`, `k + 1`, ...: each but the last leaves something to do and comes before
-- the limit; the last leaves nothing, or is the last that the limit allows.
abbrev pub is_history : ℕ → ℕ → List CycleReport → Bool
is_history max k [] = false
is_history max k (r ∷ []) = nothing_left r || leb max (k + 1)
is_history max k (r ∷ later ∷ rest) =
    not (nothing_left r) && ltb (k + 1) max && is_history max (k + 1) (later ∷ rest)

-- A result that goes on from `history`, or fails with a pass.
abbrev pub Continues :
    (ℕ → World) → Setup → ℕ → ℕ → List CycleReport → Result (List CycleReport) CycleError → Type 0
Continues worlds setup max k history (err e) =
    (n : ℕ) × (since : List (ℕ × ℕ)) × (run_cycle (worlds n) setup since ≡ none)
Continues worlds setup max k history (ok full) =
    (new : List CycleReport) × (full ≡ history ++ new) × (is_history max k new ≡ true)

module _ (worlds : ℕ → World) (setup : Setup) (max : ℕ) (limit : setup.config.max_cycles ≡ some max)
    (small : max < 2 ^ 32) where
  -- The loop on `fuel` from pass `k` on ends well.
  abbrev Ends : ℕ → ℕ → List (ℕ × ℕ) → List CycleReport → Type 0
  Ends fuel k since history =
      (out : Result (List CycleReport) CycleError) × (run_loop worlds setup fuel k since history
        ≡ some out)
      × Continues worlds setup max k history out
