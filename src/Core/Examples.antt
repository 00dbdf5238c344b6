-- ===== src/Core/Examples.antt =====
-- Runs of the functions of conductr-core at concrete inputs.
use conductr.Prelude.{Text, List, [], ◌∷◌, none, some, Bool, true, false, ◌≡◌, refl, arith, codes}
use conductr.Core.Types.{fast, strict}
use conductr.Core.Safety.{
  MaturityLevel, l1_tested, l2_git_flow, l5_orchestrated, resolve_preset, label_preset,
  preset_from_labels,
}
use conductr.Core.Safety.Resolve.{IsPinned, resolve_preset-IsPinned}
use conductr.Core.Maturity.{MaturityCheckResult, all_pass, compute}
use conductr.Core.Maturity.Achieved.{compute-passes, compute-stops}

resolve_preset-IsPinned_example :
    IsPinned (resolve_preset l5_orchestrated (some fast) (some strict)) (some fast) (some strict)
unfolding resolve_preset
resolve_preset-IsPinned_example =
    resolve_preset-IsPinned l5_orchestrated (some fast) (some strict) (ground arith)

abbrev check_result : Text → MaturityLevel → Bool → MaturityCheckResult
check_result id level passed = record {
  check = record { id = id; level = level; label = id; fixable = true };
  passed = passed;
  detail = none;
}

-- L1 passes, and one check of L2 fails.
abbrev results : List MaturityCheckResult
results =
    check_result (codes "ci") l1_tested true
    ∷ check_result (codes "branches") l2_git_flow true
    ∷ check_result (codes "reviews") l2_git_flow false
    ∷ []

compute_test : (compute results).level ≡ l1_tested
unfolding compute all_pass
compute_test = refl

compute-passes_example : all_pass results l1_tested ≡ true
unfolding compute all_pass
compute-passes_example = compute-passes results l1_tested (ground arith) (ground arith)

compute-stops_example : all_pass results l2_git_flow ≡ false
unfolding compute all_pass
compute-stops_example = compute-stops results l2_git_flow refl

preset_from_labels_test :
    preset_from_labels (codes "bug" ∷ codes " Safety: STRICT " ∷ codes "safety:fast" ∷ [])
    ≡ some strict
unfolding preset_from_labels label_preset
preset_from_labels_test = refl
