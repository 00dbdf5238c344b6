-- ===== src/Orchestrate/Isolation/Chord.antt =====
-- isolation.rs: when `decide` answers Defer.
use conductr.Prelude.{List, Bool, true, false, ◌≡◌, any, all}
use conductr.Core.Types.{CiStatus, Pr}

abbrev pub is_failing : CiStatus → Bool
is_failing CiStatus.failing = true
is_failing _ = false

abbrev pub is_passing : CiStatus → Bool
is_passing CiStatus.passing = true
is_passing _ = false

-- Some sibling is not passing, and none is failing.
abbrev pub ArePending : List Pr → Type 0
ArePending siblings =
    (any (λ (p : Pr). is_failing p.ci) siblings ≡ false)
    × (all (λ (p : Pr). is_passing p.ci) siblings ≡ false)
