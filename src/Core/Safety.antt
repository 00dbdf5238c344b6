-- ===== src/Core/Safety.antt =====
-- crates/conductr-core/src/safety.rs and the maturity levels of maturity.rs: which preset a routine
-- runs under.
use conductr.Prelude.{
  ℕ, Text, List, [], ◌∷◌, Option, none, some, codes, text_eq, trim, to_ascii_lowercase,
  strip_prefix, if◌then◌else◌,
}
use conductr.Core.Types.{SafetyPreset, unhinged, feral, fast, strict, bureaucratic}
pub mod Resolve

pub data MaturityLevel : Type 0 where
  l0_bootstrap l1_tested l2_git_flow l3_architected l4_skilled l5_orchestrated : MaturityLevel

maturity_default : MaturityLevel → SafetyPreset
maturity_default l0_bootstrap = unhinged
maturity_default l1_tested = unhinged
maturity_default l2_git_flow = feral
maturity_default l3_architected = fast
maturity_default l4_skilled = fast
maturity_default l5_orchestrated = fast

unfoldable pub resolve_preset :
    MaturityLevel → Option SafetyPreset → Option SafetyPreset → SafetyPreset
unfolding maturity_default
resolve_preset maturity cfg (some p) = p
resolve_preset maturity (some p) none = p
resolve_preset maturity none none = maturity_default maturity

preset_named : Text → Option SafetyPreset
preset_named name =
    if text_eq name (codes "unhinged")
    then some unhinged
    else if text_eq name (codes "feral")
    then some feral
    else if text_eq name (codes "fast")
    then some fast
    else if text_eq name (codes "strict")
    then some strict
    else if text_eq name (codes "bureaucratic")
    then some bureaucratic
    else none

-- What one label says.
unfoldable pub label_preset : Text → Option SafetyPreset
unfolding preset_named
label_preset label = elim (strip_prefix (codes "safety:") (to_ascii_lowercase (trim label))) [
  | none ↦ none
  | some name ↦ preset_named (trim name)
]

unfoldable pub preset_from_labels : List Text → Option SafetyPreset
preset_from_labels [] = none
preset_from_labels (label ∷ rest) = elim (label_preset label) [
  | none ↦ preset_from_labels rest
  | some p ↦ some p
]
