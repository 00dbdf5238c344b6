-- ===== src/Cli/Cron/Intervals.antt =====
-- The calendar entries of a cron expression, as times that they stand for.
use conductr.Prelude.{
  ℕ, Text, List, [], ◌∷◌, ◌++◌, map, Bool, not, if◌then◌else◌, All, All-map, false, ◌&&◌, ◌||◌, any,
  contains, any-append, is_empty, flat_map, ◌≡◌, refl, ◌∙◌, subst, arith, inl, inr,
}
use conductr.Prelude.Result.{ok, ◌>>=◌, Result-cases}
use conductr.Prelude.Split.{split_whitespace}
use conductr.Cli.Cron.Times.{
  is_day, is_weekday, no_key, agrees, has_key, fits, starts_at, values_fit, fields_agree, restricts,
  fields_fit,
}
use conductr.Cli.Cron.{
  Key, Entry, expand_entries, expand_fields, expand_cron_field, field_specs,
  cron_to_start_calendar_intervals, drop_wild,
}

abbrev with_keys : Key → List ℕ → Entry → List Entry
with_keys key vals e = map (λ v. (key, v) ∷ e) vals

module _ (without : Key → Bool) (time : Key → ℕ) where
  abbrev some_agrees : Key → List ℕ → Bool
  some_agrees key vals = if without key then not (is_empty vals) else contains (time key) vals

  any-with_key :
      (key : Key) (e : Entry) (vals : List ℕ)
      → any (agrees without time) (with_keys key vals e)
        ≡ (some_agrees key vals && agrees without time e)
  any-with_key key e [] = ground arith
  any-with_key key e (v ∷ vals) = ground (arith, any-with_key key e vals)

  any-with_keys :
      (key : Key) (vals : List ℕ) (entries : List Entry)
      → any (agrees without time) (flat_map (with_keys key vals) entries)
        ≡ (some_agrees key vals && any (agrees without time) entries)
  any-with_keys key vals [] = ground arith
  any-with_keys key vals (e ∷ entries) =
      any-append (agrees without time) (with_keys key vals e)
        (flat_map (with_keys key vals) entries)
      ∙ ground (arith, any-with_key key e vals, any-with_keys key vals entries)

  any-expand_entries :
      (key : Key) (vals : List ℕ) (entries : List Entry)
      → any (agrees without time) (expand_entries key vals entries)
        ≡ ((without key || values_fit (time key) (ok vals)) && any (agrees without time) entries)
  unfolding expand_entries
  any-expand_entries key [] entries = ground arith
  any-expand_entries key (v ∷ vals) entries = any-with_keys key (v ∷ vals) entries ∙ ground arith

  any-expand_fields :
      (fields : List (Key × Text × ℕ × ℕ)) (entries expanded : List Entry)
      → expand_fields fields entries ≡ ok expanded
      → any (agrees without time) expanded
        ≡ (fields_agree without time fields && any (agrees without time) entries)
  unfolding expand_fields
  any-expand_fields [] entries expanded h = ground arith
  any-expand_fields ((key, field, min, max) ∷ rest) entries expanded h =
      elim (Result-cases (expand_cron_field field min max)) [
        | inl (vals, e) ↦ ground (
          arith,
          any-expand_fields rest (expand_entries key vals entries) expanded,
          any-expand_entries key vals entries,
        )
        | inr (bad, e) ↦ ground arith
      ]

-- Whether the entries have a key of a kind: all of them do, or none does.
module _ (which : Key → Bool) where
  abbrev AllHave : Bool → List Entry → Type 0
  AllHave b entries = All (λ e. has_key which e ≡ b) entries

  AllHave-append :
      (b : Bool) (xs ys : List Entry) → AllHave b xs → AllHave b ys → AllHave b (xs ++ ys)
  AllHave-append b [] ys h k = k
  AllHave-append b (x ∷ xs) ys h k = (h.0, AllHave-append b xs ys h.1 k)

  with_keys-AllHave :
      (b : Bool) (key : Key) (vals : List ℕ) (e : Entry)
      → has_key which e ≡ b
      → AllHave (which key || b) (with_keys key vals e)
  with_keys-AllHave b key [] e h = tt
  with_keys-AllHave b key (v ∷ vals) e h = (ground arith, with_keys-AllHave b key vals e h)

  flat_map-AllHave :
      (b : Bool) (key : Key) (vals : List ℕ) (entries : List Entry)
      → AllHave b entries
      → AllHave (which key || b) (flat_map (with_keys key vals) entries)
  flat_map-AllHave b key vals [] h = tt
  flat_map-AllHave b key vals (e ∷ entries) h =
      AllHave-append (which key || b) (with_keys key vals e) (flat_map (with_keys key vals) entries)
        (with_keys-AllHave b key vals e h.0) (flat_map-AllHave b key vals entries h.1)

  expand_entries-AllHave :
      (b : Bool) (key : Key) (vals : List ℕ) (entries : List Entry)
      → AllHave b entries
      → AllHave ((which key && not (is_empty vals)) || b) (expand_entries key vals entries)
  unfolding expand_entries
  expand_entries-AllHave b key [] entries h = All-map (λ e k. ground arith) entries h
  expand_entries-AllHave b key (v ∷ vals) entries h =
      subst (λ c. AllHave c (flat_map (with_keys key (v ∷ vals)) entries)) (ground arith)
        (flat_map-AllHave b key (v ∷ vals) entries h)

  expand_fields-AllHave :
      (fields : List (Key × Text × ℕ × ℕ)) (b : Bool) (entries expanded : List Entry)
      → expand_fields fields entries ≡ ok expanded
      → AllHave b entries
      → AllHave (restricts which fields || b) expanded
  unfolding expand_fields
  expand_fields-AllHave [] b entries expanded h k =
      let same : entries ≡ expanded = ground arith in subst (AllHave b) same k
  expand_fields-AllHave ((key, field, min, max) ∷ rest) b entries expanded h k =
      elim (Result-cases (expand_cron_field field min max)) [
        | inl (vals, e) ↦
            let found : Bool = (which key && not (is_empty vals)) || b in
            let left : expand_fields rest (expand_entries key vals entries) ≡ ok expanded =
              ground arith in
            subst (λ c. AllHave c expanded) (ground arith)
              (expand_fields-AllHave rest found (expand_entries key vals entries) expanded left
                (expand_entries-AllHave b key vals entries k))
        | inr (bad, e) ↦ ground arith
      ]

any-fits :
    (time : Key → ℕ) (d wd : Bool) (entries : List Entry)
    → AllHave is_day d entries
    → AllHave is_weekday wd entries
    → any (fits time) entries ≡ (
        if d && wd
        then any (agrees is_weekday time) entries || any (agrees is_day time) entries
        else any (agrees no_key time) entries)
any-fits time d wd [] h k = ground arith
any-fits time d wd (e ∷ entries) h k = ground (arith, any-fits time d wd entries h.1 k.1, h.0, k.0)

-- A list that is not empty stays so.
is_empty-with_keys :
    (key : Key) (v : ℕ) (vals : List ℕ) (entries : List Entry)
    → is_empty (flat_map (with_keys key (v ∷ vals)) entries) ≡ is_empty entries
is_empty-with_keys key v vals [] = refl
is_empty-with_keys key v vals (e ∷ entries) = refl

is_empty-expand_fields :
    (fields : List (Key × Text × ℕ × ℕ)) (entries expanded : List Entry)
    → expand_fields fields entries ≡ ok expanded
    → is_empty expanded ≡ is_empty entries
unfolding expand_fields expand_entries
is_empty-expand_fields [] entries expanded h = ground arith
is_empty-expand_fields ((key, field, min, max) ∷ rest) entries expanded h =
    elim (Result-cases (expand_cron_field field min max)) [
      | inl ([], e) ↦ ground (arith, is_empty-expand_fields rest entries expanded)
      | inl (v ∷ vals, e) ↦ ground (
        arith,
        is_empty-expand_fields rest (expand_entries key (v ∷ vals) entries) expanded,
        is_empty-with_keys key v vals entries,
      )
      | inr (bad, e) ↦ ground arith
    ]

starts_at-drop_wild :
    (time : Key → ℕ) (entries : List Entry)
    → is_empty entries ≡ false
    → starts_at time (drop_wild entries) ≡ any (fits time) entries
starts_at-drop_wild time [] h = cc
starts_at-drop_wild time ([] ∷ []) h = refl
starts_at-drop_wild time ([] ∷ e ∷ entries) h = ground arith
starts_at-drop_wild time ((k ∷ keys) ∷ entries) h = ground arith

starts_at-expand_fields :
    (time : Key → ℕ) (fields : List (Key × Text × ℕ × ℕ)) (entries : List Entry)
    → (expand_fields fields ([] ∷ []) >>= (λ expanded. ok (drop_wild expanded))) ≡ ok entries
    → starts_at time entries ≡ fields_fit time fields
starts_at-expand_fields time fields entries h =
    elim (Result-cases (expand_fields fields ([] ∷ []))) [
      | inl (expanded, f) ↦
          let e : drop_wild expanded ≡ entries = ground (arith, h, f) in
          let full : is_empty expanded ≡ false =
            is_empty-expand_fields fields ([] ∷ []) expanded f in
          subst (λ (es : List Entry). starts_at time es ≡ fields_fit time fields) e
            (starts_at-drop_wild time expanded full
              ∙ (any-fits time (restricts is_day fields || false)
                    (restricts is_weekday fields || false) expanded
                    (expand_fields-AllHave is_day fields false ([] ∷ []) expanded f (refl, tt))
                    (expand_fields-AllHave is_weekday fields false ([] ∷ []) expanded f (refl, tt))
                  ∙ ground (
                    arith,
                    any-expand_fields no_key time fields ([] ∷ []) expanded f,
                    any-expand_fields is_day time fields ([] ∷ []) expanded f,
                    any-expand_fields is_weekday time fields ([] ∷ []) expanded f,
                  )))
      | inr (bad, f) ↦ ground arith
    ]

-- When a cron expression is turned into calendar entries, the entries together stand for a time
-- exactly if each of its five fields has no values or has the time's value of that field's key; but
-- if both the day and the weekday have values, it suffices for these two that one of them has the
-- time's. In the same way `launchd` starts an entry with both keys when either of them matches.
pub cron_to_start_calendar_intervals-starts_at :
    (cron a b c d e : Text) (time : Key → ℕ) (entries : List Entry)
    → split_whitespace cron ≡ a ∷ b ∷ c ∷ d ∷ e ∷ []
    → cron_to_start_calendar_intervals cron ≡ ok entries
    → starts_at time entries ≡ fields_fit time (field_specs a b c d e)
unfolding cron_to_start_calendar_intervals
cron_to_start_calendar_intervals-starts_at cron a b c d e time entries five h =
    starts_at-expand_fields time (field_specs a b c d e) entries (ground arith)
