-- ===== src/Cli/Cron/Hours.antt =====
-- The hours at which a cron expression fires.
use conductr.Prelude.{
  ℕ, zero, suc, ◌<◌, Text, List, [], ◌∷◌, Bool, false, ◌||◌, ◌==◌, ltb, contains, length, ◌≡◌, refl,
  ap, ◌∙◌, arith, Bool-cases, inl, inr,
}
use conductr.Prelude.Result.{Result, ok, err}
use conductr.Prelude.Split.{split_whitespace}
use conductr.Cli.Cron.{
  CronError, range, set_true, set_hours, repeat_false, hours_of, firing_hours, expand_cron_field,
}
use conductr.Cli.Cron.Fields.{contains-range}
use conductr.Cli.Cron.Times.{values_fit}

-- `fires[k]`.
abbrev pub fires_at : ℕ → List Bool → Bool
fires_at k [] = false
fires_at zero (b ∷ bs) = b
fires_at (suc k) (b ∷ bs) = fires_at k bs

length-set_true : (h : ℕ) (fires : List Bool) → length (set_true h fires) ≡ length fires
length-set_true h [] = refl
length-set_true zero (b ∷ bs) = refl
length-set_true (suc h) (b ∷ bs) = ap suc (length-set_true h bs)

fires_at-set_true :
    (k h : ℕ) (fires : List Bool)
    → k < length fires
    → fires_at k (set_true h fires) ≡ (h == k || fires_at k fires)
fires_at-set_true k h [] b = ground arith
fires_at-set_true zero zero (c ∷ fires) b = refl
fires_at-set_true zero (suc h) (c ∷ fires) b = ground arith
fires_at-set_true (suc k) zero (c ∷ fires) b = ground arith
fires_at-set_true (suc k) (suc h) (c ∷ fires) b = ground (arith, fires_at-set_true k h fires)

fires_at-set_hours :
    (hours : List ℕ) (k : ℕ) (fires : List Bool)
    → k < 24
    → length fires ≡ 24
    → fires_at k (set_hours hours fires) ≡ (contains k hours || fires_at k fires)
unfolding set_hours
fires_at-set_hours [] k fires b l = refl
fires_at-set_hours (h ∷ hours) k fires b l = elim (Bool-cases (ltb h 24)) [
  | inl e ↦ rw e (
      fires_at-set_hours hours k (set_true h fires) b (length-set_true h fires ∙ l)
      ∙ ground (arith, fires_at-set_true k h fires))
  | inr e ↦ rw e (fires_at-set_hours hours k fires b l ∙ ground arith)
]

fires_at-repeat_false : (n k : ℕ) → fires_at k (repeat_false n) ≡ false
fires_at-repeat_false zero k = refl
fires_at-repeat_false (suc n) zero = refl
fires_at-repeat_false (suc n) (suc k) = fires_at-repeat_false n k

fires_at-hours_of :
    (k : ℕ) (r : Result (List ℕ) CronError) → k < 24 → fires_at k (hours_of r) ≡ values_fit k r
unfolding hours_of
fires_at-hours_of k (err e) b = fires_at-repeat_false 24 k
fires_at-hours_of k (ok []) b =
    fires_at-set_hours (range 0 24) k (repeat_false 24) b refl
    ∙ ground (arith, contains-range k 0 24)
fires_at-hours_of k (ok (v ∷ vals)) b =
    fires_at-set_hours (v ∷ vals) k (repeat_false 24) b refl
    ∙ ground (arith, fires_at-repeat_false 24 k)

-- An hour of the day is one at which a cron expression of five fields fires exactly if its hour field
-- can be expanded and has no values or has that hour.
pub fires_at-firing_hours :
    (cron a b c d e : Text) (k : ℕ)
    → split_whitespace cron ≡ a ∷ b ∷ c ∷ d ∷ e ∷ []
    → k < 24
    → fires_at k (firing_hours cron) ≡ values_fit k (expand_cron_field b 0 23)
unfolding firing_hours
fires_at-firing_hours cron a b c d e k five h =
    let same : firing_hours cron ≡ hours_of (expand_cron_field b 0 23) = ground arith in
    ap (fires_at k) same ∙ fires_at-hours_of k (expand_cron_field b 0 23) h
