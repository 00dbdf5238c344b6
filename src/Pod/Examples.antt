-- ===== src/Pod/Examples.antt =====
-- Runs over a pod of four sessions.
use conductr.Prelude.{
  text_eq, if◌then◌else◌, ℕ, Text, List, [], ◌∷◌, none, some, Bool, true, false, not, ◌&&◌, ◌≡◌,
  ◌↔◌, refl, codes, filter, map,
}
use conductr.Prelude.Int.{pos}
use conductr.Core.Sessions.{TmuxSession, Health, Diagnosis, needs_heal}
use conductr.Pod.Free.{FreeOpts, is_free, pick_idle, max_from, IsLastLongest, pick_idle-longest}
use conductr.Prelude.Result.{ok}
use conductr.Pod.Diagnose.{Tmux, diagnose_all, looks_like_claude_tui}
use conductr.Pod.Diagnose.Restart.{sent, heal_all-diagnose_all}
use conductr.Pod.Heal.{
  HealOutcome, Lines, SendLine, heal_all, all_restarts, was_sent, heal_all-lines,
}

abbrev found : Text → Health → ℕ → Bool → Diagnosis
found name health idle_seconds attached = record {
  session = record {
    name = name;
    created = 0;
    last_activity = 0;
    windows = 1;
    attached = attached;
    cwd = none;
  };
  health = health;
  idle_seconds = pos idle_seconds;
  remote_control = false;
  tail = [];
}

abbrev pod : List Diagnosis
pod =
    found (codes "a") (Health.idle none none) 40 true
    ∷ found (codes "b") (Health.crashed none) 90 false
    ∷ found (codes "c") (Health.idle none none) 30 false
    ∷ found (codes "d") (Health.crashed none) 10 false
    ∷ []

abbrev unattached : FreeOpts
unattached = record { include_attached = false }

pick_idle_test :
    pick_idle pod unattached ≡ some (found (codes "c") (Health.idle none none) 30 false)
unfolding pick_idle max_from
pick_idle_test = refl

pick_idle-longest_example :
    ((d : Diagnosis)
      → pick_idle pod unattached ≡ some d
      → IsLastLongest d (filter (is_free unattached) pod))
    × ((pick_idle pod unattached ≡ none) ↔ (filter (is_free unattached) pod ≡ []))
pick_idle-longest_example = pick_idle-longest pod unattached

-- The second line fails.
abbrev flaky : SendLine
flaky [] name command = none
flaky (line ∷ lines) name command = some (codes "no server running")

heal_all-lines_example :
    (out : List HealOutcome × Lines) × (heal_all {E = Text} flaky (ok pod) (codes "claude") false
      ≡ ok out)
    × (out.1 ≡ all_restarts (codes "claude") false pod)
    × (map was_sent out.0 ≡ map (λ (d : Diagnosis). not false && needs_heal d.health) pod)
heal_all-lines_example = heal_all-lines {E = Text} flaky pod (codes "claude") false

abbrev session : Text → TmuxSession
session name = record {
  name = name;
  created = 0;
  last_activity = 5;
  windows = 1;
  attached = false;
  cwd = none;
}

-- A server on which the agent of one session has ended.
abbrev server : Tmux
server = record {
  list_sessions =
      ok (session (codes "web-1") ∷ session (codes "web-2") ∷ session (codes "log") ∷ []);
  capture_pane = λ name. ok (
      if text_eq name (codes "web-2")
      then codes "user@host:~$ "
      else codes "auto mode on\n❯ hello");
}

heal_all-diagnose_all_example :
    sent (heal_all flaky (diagnose_all server 9 (some (codes "web"))) (codes "claude") false)
    ≡ ok ((codes "web-2", codes "claude") ∷ [])
unfolding looks_like_claude_tui
heal_all-diagnose_all_example =
    heal_all-diagnose_all flaky server 9 (some (codes "web")) (codes "claude") false
      (session (codes "web-1") ∷ session (codes "web-2") ∷ session (codes "log") ∷ []) refl
