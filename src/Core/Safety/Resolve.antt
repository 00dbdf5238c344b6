-- ===== src/Core/Safety/Resolve.antt =====
-- The three sources of a preset.
use conductr.Prelude.{
  ℕ, Text, List, [], ◌∷◌, ◌++◌, Option, none, some, ◌≡◌, refl, ◌≤◌, ◌⊎◌, inl, inr, arith, All,
}
use conductr.Core.Types.{SafetyPreset, unhinged, feral, fast, strict, bureaucratic}
use conductr.Core.Safety.{MaturityLevel, resolve_preset, label_preset, preset_from_labels}

-- The order of the presets that the source derives, from the least to the most restrictive.
abbrev pub severity : SafetyPreset → ℕ
severity unhinged = 0
severity feral = 1
severity fast = 2
severity strict = 3
severity bureaucratic = 4

abbrev pub IsPinned : SafetyPreset → Option SafetyPreset → Option SafetyPreset → Type 0
IsPinned p cfg routine = (routine ≡ some p) ⊎ ((routine ≡ none) × (cfg ≡ some p))

-- A preset above FAST is in effect only if the issue's label says so, or the configuration does
-- and no label says anything.
pub resolve_preset-IsPinned :
    (m : MaturityLevel) (cfg routine : Option SafetyPreset)
    → 3 ≤ severity (resolve_preset m cfg routine)
    → IsPinned (resolve_preset m cfg routine) cfg routine
unfolding resolve_preset
resolve_preset-IsPinned m cfg (some p) h = inl refl
resolve_preset-IsPinned m (some p) none h = inr (refl, refl)
resolve_preset-IsPinned m none none h = ground arith

-- The preset of an issue is what its first label that names a preset says: the labels before it
-- name none.
pub preset_from_labels-first :
    (before : List Text) (label : Text) (after : List Text) (p : SafetyPreset)
    → All (λ l. label_preset l ≡ none) before
    → label_preset label ≡ some p
    → preset_from_labels (before ++ label ∷ after) ≡ some p
unfolding preset_from_labels
preset_from_labels-first [] label after p h e = rw (preset_from_labels, e)
preset_from_labels-first (b ∷ before) label after p h e =
    rw (preset_from_labels, h.0) (preset_from_labels-first before label after p h.1 e)
