-- ===== src/Schedule/Pattern/Leaves.antt =====
-- Where the leaves of a pattern start and end.
use conductr.Prelude.{
  ℕ, ◌+◌, ◌^◌, ◌<◌, List, [], ◌∷◌, ◌++◌, Option, none, some, if◌then◌else◌, ◌==◌, map, ◌≡◌, refl,
  arith, ◌∙◌, sym, ap, Bool-cases, inl, inr, ==_refl, ==_iff,
}
use mathlib.Core.Option.{some-injective}
use mathlib.Core.List.{map-append}
use conductr.Prelude.Result.{Result, ok, err, ◌>>◌}
use conductr.Schedule.Notation.{in_64ths, bar_in_64ths, wrap}
use conductr.Schedule.Pattern.{
  Beat, Beats, Bar, Pattern, PatternError, LeafInterval, tag, subdivided, no_beats, then_beat,
  beat_64ths, sum_from, validate_beat, validate_beats, validate_at, validate_bars, validate,
  walk_leaves, walk_children, shift, leaves_of_beats, leaves_of_bars, leaves,
}

-- Where the leaves end that start at `at`, each where the one before it ends.
abbrev pub follow : ℕ → List LeafInterval → Option ℕ
follow at [] = some at
follow at (l ∷ rest) =
    if l.offset_64ths == at then follow (wrap (at + l.length_64ths)) rest else none

wrap_inner : (a b c : ℕ) → wrap (wrap (a + b) + c) ≡ wrap (a + wrap (b + c))
wrap_inner a b c = omega arith

wrap_small : (a : ℕ) → a < 2 ^ 32 → wrap a ≡ a
wrap_small a h = omega arith

wrap-lt : (a : ℕ) → wrap a < 2 ^ 32
wrap-lt a = omega arith

follow-append :
    (at end : ℕ) (xs ys : List LeafInterval)
    → follow at xs ≡ some end
    → follow at (xs ++ ys) ≡ follow end ys
follow-append at end [] ys h =
    ap (λ (o : Option ℕ). elim o [ none ↦ none | some e ↦ follow e ys ]) h
follow-append at end (x ∷ xs) ys h = elim (Bool-cases (x.offset_64ths == at)) [
  | inl e ↦ rw e (follow-append (wrap (at + x.length_64ths)) end xs ys (ground arith))
  | inr e ↦ ground arith
]

sum_from-wrap : (a b : ℕ) (bs : Beats) → sum_from (wrap (a + b)) bs ≡ wrap (a + sum_from b bs)
sum_from-wrap a b no_beats = refl
sum_from-wrap a b (then_beat x rest) =
    ap (λ s. sum_from s rest) (wrap_inner a b (beat_64ths x))
    ∙ sum_from-wrap a (wrap (b + beat_64ths x)) rest

sum_from-start : (a : ℕ) (bs : Beats) → a < 2 ^ 32 → sum_from a bs ≡ wrap (a + sum_from 0 bs)
sum_from-start a bs h =
    let same : a ≡ wrap (a + 0) = omega arith in ap (λ s. sum_from s bs) same ∙ sum_from-wrap a 0 bs

-- Both steps of a chain succeed.
both_ok : (m k : Result (Unit {0}) PatternError) → m >> k ≡ ok tt → (m ≡ ok tt) × (k ≡ ok tt)
both_ok (ok tt) k h = (refl, h)
both_ok (err e) k h = cc

mutual
  unfolding validate_beat walk_leaves

  follow-walk_leaves :
      (b : Beat) (at : ℕ)
      → at < 2 ^ 32
      → validate_beat b ≡ ok tt
      → follow at (walk_leaves b at) ≡ some (wrap (at + beat_64ths b))
  follow-walk_leaves (tag v t) at h valid = ground arith
  follow-walk_leaves (subdivided v children) at h valid =
      elim (Bool-cases (sum_from 0 children == in_64ths v)) [
        | inl e ↦
            let inner : validate_beats children ≡ ok tt = ground arith in
            let total : sum_from 0 children ≡ in_64ths v = ground arith in
            follow-walk_children children at h inner
            ∙ ap (λ n. some n) (sum_from-start at children h ∙ ap (λ n. wrap (at + n)) total)
        | inr e ↦ ground arith
      ]

  follow-walk_children :
      (bs : Beats) (at : ℕ)
      → at < 2 ^ 32
      → validate_beats bs ≡ ok tt
      → follow at (walk_children bs at) ≡ some (sum_from at bs)
  follow-walk_children no_beats at h valid = refl
  follow-walk_children (then_beat b rest) at h valid =
      let (first, others) = both_ok (validate_beat b) (validate_beats rest) valid in
      let next = wrap (at + beat_64ths b) in
      follow-append at next (walk_leaves b at) (walk_children rest next)
        (follow-walk_leaves b at h first)
      ∙ follow-walk_children rest next (wrap-lt (at + beat_64ths b)) others

follow-map :
    (k at end : ℕ) (xs : List LeafInterval)
    → follow at xs ≡ some end
    → follow (wrap (k + at)) (map (shift k) xs) ≡ some (wrap (k + end))
follow-map k at end [] h = ap (λ n. some (wrap (k + n))) (some-injective _ _ h)
follow-map k at end (x ∷ xs) h = elim (Bool-cases (x.offset_64ths == at)) [
  | inl e ↦
      let same : x.offset_64ths ≡ at = ground arith in
      let later : follow (wrap (at + x.length_64ths)) xs ≡ some end = ground arith in
      rw (same, ==_refl (wrap (k + at)), wrap_inner k at x.length_64ths)
        (follow-map k (wrap (at + x.length_64ths)) end xs later)
  | inr e ↦ ground arith
]

leaves_of_beats-shift :
    (k at : ℕ) (bs : Beats) → leaves_of_beats k at bs ≡ map (shift k) (walk_children bs at)
unfolding leaves_of_beats walk_leaves
leaves_of_beats-shift k at no_beats = refl
leaves_of_beats-shift k at (then_beat b rest) =
    let next = wrap (at + beat_64ths b) in
    ap (λ l. map (shift k) (walk_leaves b at) ++ l) (leaves_of_beats-shift k next rest)
    ∙ sym (map-append (shift k) (walk_leaves b at) (walk_children rest next))

-- The length of the bars, in 64th notes.
abbrev pub bars_from : ℕ → List Bar → ℕ
bars_from sum [] = sum
bars_from sum (bar ∷ rest) = bars_from (wrap (sum + bar_in_64ths bar.time_signature)) rest

follow-leaves_of_beats :
    (i k : ℕ) (bar : Bar)
    → k < 2 ^ 32
    → validate_at bar i ≡ ok tt
    → follow k (leaves_of_beats k 0 bar.beats) ≡ some (wrap (k + bar_in_64ths bar.time_signature))
unfolding validate_at
follow-leaves_of_beats i k bar h valid =
    elim (Bool-cases (sum_from 0 bar.beats == bar_in_64ths bar.time_signature)) [
      | inl e ↦
          let inner : validate_beats bar.beats ≡ ok tt = ground arith in
          let total : sum_from 0 bar.beats ≡ bar_in_64ths bar.time_signature = (==_iff _ _).0 e in
          let walked = follow-walk_children bar.beats 0 (omega arith) inner in
          let unmoved : wrap (k + 0) ≡ k = omega arith in
          ap (λ l. follow k l) (leaves_of_beats-shift k 0 bar.beats)
          ∙ ap (λ a. follow a (map (shift k) (walk_children bar.beats 0))) (sym unmoved)
          ∙ follow-map k 0 (sum_from 0 bar.beats) (walk_children bar.beats 0) walked
          ∙ ap (λ n. some (wrap (k + n))) total
      | inr e ↦ ground arith
    ]

follow-leaves_of_bars :
    (i k : ℕ) (bars : List Bar)
    → k < 2 ^ 32
    → validate_bars i bars ≡ ok tt
    → follow k (leaves_of_bars k bars) ≡ some (bars_from k bars)
unfolding leaves_of_bars validate_bars
follow-leaves_of_bars i k [] h valid = refl
follow-leaves_of_bars i k (bar ∷ rest) h valid =
    let (first, others) = both_ok (validate_at bar i) (validate_bars (i + 1) rest) valid in
    let next = wrap (k + bar_in_64ths bar.time_signature) in
    follow-append k next (leaves_of_beats k 0 bar.beats) (leaves_of_bars next rest)
      (follow-leaves_of_beats i k bar h first)
    ∙ follow-leaves_of_bars (i + 1) next rest (wrap-lt (k + bar_in_64ths bar.time_signature)) others

-- The leaves of a valid pattern follow one another without a gap or an overlap: the first starts at
-- 0, each other starts where the one before it ends, and the last ends at the sum of the lengths of
-- the bars, all in the arithmetic of `u32`.
pub follow-leaves :
    (pattern : Pattern)
    → validate pattern ≡ ok tt
    → follow 0 (leaves pattern) ≡ some (bars_from 0 pattern.bars)
unfolding leaves validate
follow-leaves pattern valid = follow-leaves_of_bars 0 0 pattern.bars (omega arith) valid
