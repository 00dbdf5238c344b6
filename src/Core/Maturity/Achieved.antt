-- ===== src/Core/Maturity/Achieved.antt =====
-- The level of a report, and the checks of each level.
use conductr.Prelude.{List, ◌≡◌, ◌≤◌, true, false, arith, ◌+◌}
use conductr.Core.Safety.{MaturityLevel, l0_bootstrap}
use conductr.Core.Maturity.{MaturityCheckResult, rank, all_pass, compute}

-- Every check of a level from L1 to the report's level passes.
pub compute-passes :
    (results : List MaturityCheckResult) (lvl : MaturityLevel)
    → 1 ≤ rank lvl
    → rank lvl ≤ rank (compute results).level
    → all_pass results lvl ≡ true
unfolding compute
compute-passes results l0_bootstrap h k = absurd (omega arith)
compute-passes results lvl h k = ground arith

-- The level above the report's level, if there is one, has a check that fails.
pub compute-stops :
    (results : List MaturityCheckResult) (lvl : MaturityLevel)
    → rank lvl ≡ rank (compute results).level + 1
    → all_pass results lvl ≡ false
unfolding compute
compute-stops results l0_bootstrap h = absurd (omega arith)
compute-stops results lvl h = ground arith
