-- ===== src/Schedule/PlanPattern/Pad.antt =====
-- The bars of a plan's pattern: how they are padded, and whether the pattern's own check accepts them.
use conductr.Prelude.{
  ℕ, zero, suc, ◌+◌, ◌-◌, ◌*◌, ◌/◌, ◌%◌, ◌^◌, ◌≤◌, ◌<◌, List, [], ◌∷◌, if◌then◌else◌, ◌==◌, map,
  codes, ◌≡◌, refl, ◌∙◌, ap, arith, Bool-cases, inl, inr,
}
use conductr.Prelude.Result.{Result, ok, err}
use conductr.Schedule.Notation.{in_64ths, wrap}
use conductr.Schedule.Pattern.{
  tag, Beats, no_beats, then_beat, PatternError, bar_length_mismatch, sum_from, validate_beat,
  validate_beats, validate_at, validate_bars, validate,
}
use conductr.Schedule.FromPlan.{Plan, PlanItem}
use conductr.Schedule.PlanPattern.{
  largest_note_fitting, pad, beats_of, sum_estimates, bar_size, bar_of, pattern_of, plan_to_pattern,
  topo_batches, time_signature_of,
}

wrap_small : (n : ℕ) → n < 2 ^ 32 → wrap n ≡ n
wrap_small n h = omega arith

largest_note_fitting-le :
    (n : ℕ)
    → 1 ≤ n
    → (in_64ths (largest_note_fitting n) ≤ n) × (1 ≤ in_64ths (largest_note_fitting n))
unfolding largest_note_fitting
largest_note_fitting-le n h = ground arith

pad_step :
    (fuel remaining : ℕ)
    → 1 ≤ remaining
    → pad (suc fuel) remaining
      ≡ then_beat
          (tag (largest_note_fitting remaining) (codes "rest"))
          (pad fuel (remaining - in_64ths (largest_note_fitting remaining)))
unfolding pad
pad_step fuel remaining h = ground arith

pad_done : (fuel : ℕ) → pad fuel 0 ≡ no_beats
unfolding pad
pad_done zero = refl
pad_done (suc fuel) = refl

sum_from-pad :
    (fuel remaining sum : ℕ)
    → remaining ≤ fuel
    → sum + remaining < 2 ^ 32
    → sum_from sum (pad fuel remaining) ≡ sum + remaining
unfolding pad
sum_from-pad zero remaining sum h b = omega arith
sum_from-pad (suc fuel) zero sum h b = omega arith
sum_from-pad (suc fuel) (suc n) sum h b =
    let v = in_64ths (largest_note_fitting (suc n)) in
    let fits = largest_note_fitting-le (suc n) (omega arith) in
    ap (sum_from sum) (pad_step fuel (suc n) (omega arith))
    ∙ (ap (λ (s : ℕ). sum_from s (pad fuel (suc n - v)))
          (wrap_small (sum + v) (omega (arith, fits.0)))
        ∙ (sum_from-pad fuel (suc n - v) (sum + v) (omega (arith, fits.1)) (omega (arith, fits.0))
            ∙ omega (arith, fits.0)))

sum_from-beats_of :
    (sum : ℕ) (batch : List PlanItem) (rests : Beats)
    → sum_from sum (beats_of batch rests) ≡ sum_from (sum_estimates sum batch) rests
unfolding beats_of
sum_from-beats_of sum [] rests = refl
sum_from-beats_of sum (item ∷ batch) rests =
    sum_from-beats_of (wrap (sum + in_64ths item.estimate)) batch rests

validate_beats-pad : (fuel remaining : ℕ) → validate_beats (pad fuel remaining) ≡ ok tt
unfolding validate_beats validate_beat pad
validate_beats-pad zero remaining = refl
validate_beats-pad (suc fuel) zero = refl
validate_beats-pad (suc fuel) (suc n) =
    ap validate_beats (pad_step fuel (suc n) (omega arith))
    ∙ validate_beats-pad fuel (suc n - in_64ths (largest_note_fitting (suc n)))

validate_beats-beats_of :
    (batch : List PlanItem) (rests : Beats)
    → validate_beats rests ≡ ok tt
    → validate_beats (beats_of batch rests) ≡ ok tt
unfolding validate_beats validate_beat beats_of
validate_beats-beats_of [] rests h = h
validate_beats-beats_of (item ∷ batch) rests h = validate_beats-beats_of batch rests h

-- A bar is filled to the length it is to have.
sum_from-bar_of :
    (size : ℕ) (batch : List PlanItem)
    → size < 2 ^ 32
    → sum_estimates 0 batch ≤ size
    → sum_from 0 ((bar_of size batch).beats) ≡ size
unfolding bar_of
sum_from-bar_of size batch b h =
    let rest = size - sum_estimates 0 batch in
    sum_from-beats_of 0 batch (pad rest rest)
    ∙ (sum_from-pad rest rest (sum_estimates 0 batch) (omega arith) (omega arith) ∙ omega arith)

validate_beats-bar_of :
    (size : ℕ) (batch : List PlanItem) → validate_beats ((bar_of size batch).beats) ≡ ok tt
unfolding bar_of
validate_beats-bar_of size batch =
    let rest = size - sum_estimates 0 batch in
    validate_beats-beats_of batch (pad rest rest) (validate_beats-pad rest rest)

time_signature-bar_of :
    (size : ℕ) (batch : List PlanItem) → (bar_of size batch).time_signature ≡ time_signature_of size
unfolding bar_of
time_signature-bar_of size batch = refl

-- The verdict on a bar of the length `size`.
abbrev bar_verdict : ℕ → ℕ → Result (Unit {0}) PatternError
bar_verdict index size =
    if size % 16 == 0 then ok tt else err (bar_length_mismatch index ((size + 15) / 16 * 16) size)

validate_at-bar_of :
    (size index : ℕ) (batch : List PlanItem)
    → size + 15 < 2 ^ 32
    → sum_estimates 0 batch ≤ size
    → validate_at (bar_of size batch) index ≡ bar_verdict index size
unfolding validate_at
validate_at-bar_of size index batch b h = ground (
  arith,
  sum_from-bar_of size batch (omega arith) h,
  validate_beats-bar_of size batch,
  time_signature-bar_of size batch,
)

-- The batches fit into a bar of the length `size`.
abbrev AllFit : ℕ → List (List PlanItem) → Type 0
AllFit size [] = Unit
AllFit size (batch ∷ batches) = (sum_estimates 0 batch ≤ size) × AllFit size batches

AllFit-le : (a b : ℕ) (batches : List (List PlanItem)) → a ≤ b → AllFit a batches → AllFit b batches
AllFit-le a b [] h f = tt
AllFit-le a b (batch ∷ batches) h (f, g) = (omega arith, AllFit-le a b batches h g)

AllFit-bar_size : (batches : List (List PlanItem)) → AllFit (bar_size batches) batches
AllFit-bar_size [] = tt
AllFit-bar_size (batch ∷ batches) = (
  ground arith,
  AllFit-le (bar_size batches) (bar_size (batch ∷ batches)) batches (ground arith)
      (AllFit-bar_size batches),
)

validate_bars-even :
    (size index : ℕ) (batches : List (List PlanItem))
    → size + 15 < 2 ^ 32
    → size % 16 ≡ 0
    → AllFit size batches
    → validate_bars index (map (bar_of size) batches) ≡ ok tt
unfolding validate_bars
validate_bars-even size index [] b e f = refl
validate_bars-even size index (batch ∷ batches) b e (f, g) =
    rw (validate_at-bar_of size index batch b f)
      (ground (arith, validate_bars-even size (index + 1) batches b e g))

validate_bars-verdict :
    (size : ℕ) (batch : List PlanItem) (batches : List (List PlanItem))
    → size + 15 < 2 ^ 32
    → AllFit size (batch ∷ batches)
    → validate_bars 0 (map (bar_of size) (batch ∷ batches)) ≡ bar_verdict 0 size
unfolding validate_bars
validate_bars-verdict size batch batches b (f, g) =
    rw (validate_at-bar_of size 0 batch b f) (elim (Bool-cases (size % 16 == 0)) [
      | inl e ↦ ground (arith, validate_bars-even size (0 + 1) batches b (ground arith) g)
      | inr e ↦ ground arith
    ])

validate-pattern_of :
    (batches : List (List PlanItem))
    → bar_size batches + 15 < 2 ^ 32
    → validate (pattern_of batches) ≡ bar_verdict 0 (bar_size batches)
unfolding pattern_of validate validate_bars
validate-pattern_of [] b = refl
validate-pattern_of (batch ∷ batches) b =
    validate_bars-verdict (bar_size (batch ∷ batches)) batch batches b
      (AllFit-bar_size (batch ∷ batches))

-- The pattern made of a plan, whose largest batch is shorter than 2^32 - 15 64th notes, passes the
-- pattern's own check if the length of the largest batch is a multiple of a quarter note's 16. If it
-- is not, the check reports the first bar: its beats have that length, and its time signature the
-- next multiple of 16.
pub validate-plan_to_pattern :
    (plan : Plan)
    → bar_size (topo_batches plan) + 15 < 2 ^ 32
    → validate (plan_to_pattern plan) ≡ (
        if bar_size (topo_batches plan) % 16 == 0
        then ok tt
        else err (
            bar_length_mismatch 0
              ((bar_size (topo_batches plan) + 15) / 16 * 16)
              (bar_size (topo_batches plan))))
unfolding plan_to_pattern
validate-plan_to_pattern plan b = validate-pattern_of (topo_batches plan) b
