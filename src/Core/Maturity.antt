-- ===== src/Core/Maturity.antt =====
-- crates/conductr-core/src/maturity.rs: the level that a repository has reached.
use conductr.Prelude.{
  ℕ, Text, List, [], ◌∷◌, Option, Bool, true, false, all, filter, codes, if◌then◌else◌, ◌==◌, not,
}
use conductr.Core.Safety.{
  MaturityLevel, l0_bootstrap, l1_tested, l2_git_flow, l3_architected, l4_skilled, l5_orchestrated,
}
pub mod Achieved

pub record MaturityCheck : Type 0 where
  pub id : Text
  pub level : MaturityLevel
  pub label : Text
  pub fixable : Bool

pub record MaturityCheckResult : Type 0 where
  pub check : MaturityCheck
  pub passed : Bool
  pub detail : Option Text

pub record MaturityReport : Type 0 where
  pub results : List MaturityCheckResult
  pub level : MaturityLevel

-- The level's number, by which the source's derived order compares.
abbrev pub rank : MaturityLevel → ℕ
rank l0_bootstrap = 0
rank l1_tested = 1
rank l2_git_flow = 2
rank l3_architected = 3
rank l4_skilled = 4
rank l5_orchestrated = 5

unfoldable pub all_pass : List MaturityCheckResult → MaturityLevel → Bool
all_pass results lvl =
    all (λ (r : MaturityCheckResult). r.passed)
      (filter (λ (r : MaturityCheckResult). rank r.check.level == rank lvl) results)

-- The `for` loop over the levels above `achieved`, which ends at the first that does not pass.
climb : List MaturityCheckResult → MaturityLevel → List MaturityLevel → MaturityLevel
climb results achieved [] = achieved
climb results achieved (lvl ∷ rest) =
    if all_pass results lvl then climb results lvl rest else achieved

abbrev upper_levels : List MaturityLevel
upper_levels = l1_tested ∷ l2_git_flow ∷ l3_architected ∷ l4_skilled ∷ l5_orchestrated ∷ []

unfoldable pub compute : List MaturityCheckResult → MaturityReport
unfolding climb
compute results = record { results = results; level = climb results l0_bootstrap upper_levels }

unfoldable pub failed_checks : MaturityReport → List MaturityCheckResult
failed_checks report = filter (λ (r : MaturityCheckResult). not r.passed) report.results
