-- ===== src/Orchestrate/Cycle/Chords.antt =====
-- The hard chord: how many BUREAUCRATIC issues one pass dispatches.
use conductr.Prelude.{
  ℕ, ◌+◌, ◌≤◌, List, [], ◌∷◌, ◌++◌, Bool, true, false, if◌then◌else◌, any, filter, length, ◌≡◌,
  refl, arith, Option-cases, Bool-cases, inl, inr,
}
use conductr.Core.Types.{Issue, Pr, SafetyPreset, bureaucratic, Bucket, Classification}
use conductr.Core.Signals.{MailKind}
use conductr.Orchestrate.Dispatch.{Runner, web, tmux, first_free}
use conductr.Orchestrate.Isolation.{
  IsolationDecision, dispatch, defer, dispatch_with_yell, dispatch_with_advisory,
}
use conductr.Orchestrate.Cycle.{World, Setup, Cycle, is_in_flight, issue_named}
use conductr.Orchestrate.Cycle.Launch.{
  deferred, remember, forget, count_dispatch, trigger_web, prompt_agent, spawn_agent,
  trigger_web_capped, launch_tmux, launch, chord_blocks, launch_chorded, send_yells,
}
use conductr.Orchestrate.Cycle.Pass.{
  effective_preset, act_on, consider, dispatch_ready, assign_human, dispatch_one, dispatch_all,
  prepared, act, classifications,
}
use conductr.Orchestrate.Cycle.Survey.{resolve_prs}
use conductr.Orchestrate.Cycle.Start.{prepared-IsIdle}

abbrev pub is_bureaucratic : SafetyPreset → Bool
is_bureaucratic bureaucratic = true
is_bureaucratic _ = false

module _ (w : World) (setup : Setup) (issues : List Issue) where
  -- The issue is dispatched under BUREAUCRATIC.
  abbrev pub is_chorded : ℕ → Bool
  is_chorded n = is_bureaucratic (effective_preset setup.config (issue_named issues n))

  abbrev pub chorded : Cycle → ℕ
  chorded s = length (filter is_chorded s.report.triggered)

  -- How many are allowed: none if an issue was in flight when the pass began, and one only once.
  abbrev pub allowance : Bool → ℕ
  allowance dispatched = if any is_in_flight issues then 0 else if dispatched then 1 else 0

  record IsChorded (s : Cycle) : Type 0 where
    bounded : chorded s ≤ allowance s.bureaucratic_dispatched

  chorded-snoc :
      (ns : List ℕ) (n : ℕ)
      → length (filter is_chorded (ns ++ n ∷ []))
        ≡ length (filter is_chorded ns) + (if is_chorded n then 1 else 0)
  chorded-snoc [] n = ground arith
  chorded-snoc (m ∷ ns) n = ground (arith, chorded-snoc ns n)

  -- The chord lets the issue through.
  abbrev IsOpen : Cycle → ℕ → SafetyPreset → Type 0
  IsOpen s issue preset =
      (is_chorded issue ≡ is_bureaucratic preset) × (chord_blocks w issues s preset ≡ false)

  trigger_web-IsChorded :
      (s : Cycle) (issue : ℕ) (preset : SafetyPreset)
      → IsChorded s
      → IsOpen s issue preset
      → IsChorded (trigger_web w setup.config s issue preset)
  unfolding trigger_web count_dispatch chord_blocks
  trigger_web-IsChorded s issue bureaucratic inv h =
      ground (arith, chorded-snoc s.report.triggered issue)
  trigger_web-IsChorded s issue preset inv h = ground (arith, chorded-snoc s.report.triggered issue)

  spawn_agent-IsChorded :
      (s : Cycle) (issue slot : ℕ) (preset : SafetyPreset)
      → IsChorded s
      → IsOpen s issue preset
      → IsChorded (spawn_agent w setup.config s issue slot preset)
  unfolding spawn_agent prompt_agent count_dispatch chord_blocks
  spawn_agent-IsChorded s issue slot bureaucratic inv h =
      ground (arith, chorded-snoc s.report.triggered issue)
  spawn_agent-IsChorded s issue slot preset inv h =
      ground (arith, chorded-snoc s.report.triggered issue)

  launch-IsChorded :
      (s : Cycle) (issue : ℕ) (preset : SafetyPreset) (runner : Runner)
      → IsChorded s
      → IsOpen s issue preset
      → IsChorded (launch w setup s issue preset runner)
  unfolding launch launch_tmux trigger_web_capped
  launch-IsChorded s issue preset web inv h =
      ground (arith, trigger_web-IsChorded s issue preset inv h)
  launch-IsChorded s issue preset tmux inv h =
      elim (Option-cases (first_free s.agent_indices_in_use 1 setup.config.max_parallel_beats)) [
        | inl e ↦ ground arith
        | inr (slot, e) ↦ ground (
          arith,
          trigger_web-IsChorded s issue preset inv h,
          spawn_agent-IsChorded s issue slot preset inv h,
        )
      ]

  launch_chorded-IsChorded :
      (s : Cycle) (issue : ℕ) (preset : SafetyPreset) (runner : Runner)
      → IsChorded s
      → is_chorded issue ≡ is_bureaucratic preset
      → IsChorded (launch_chorded w setup issues s issue preset runner)
  unfolding launch_chorded deferred
  launch_chorded-IsChorded s issue preset runner inv same =
      elim (Bool-cases (chord_blocks w issues s preset)) [
        | inl e ↦ ground arith
        | inr e ↦ rw e (launch-IsChorded s issue preset runner inv (same, e))
      ]

  send_yells-IsChorded :
      (ys : List MailKind) (s : Cycle) → IsChorded s → IsChorded (send_yells w s ys)
  unfolding send_yells
  send_yells-IsChorded [] s inv = inv
  send_yells-IsChorded (y ∷ ys) s inv = send_yells-IsChorded ys _ (record { bounded = inv.bounded })

  act_on-IsChorded :
      (s : Cycle) (issue : ℕ) (preset : SafetyPreset) (runner : Runner) (d : IsolationDecision)
      → IsChorded s
      → is_chorded issue ≡ is_bureaucratic preset
      → IsChorded (act_on w setup issues s issue preset runner d)
  unfolding act_on forget
  act_on-IsChorded s issue preset runner defer inv same = unfold remember deferred in ground arith
  act_on-IsChorded s issue preset runner (dispatch_with_yell yells) inv same =
      launch_chorded-IsChorded _ issue preset runner
        (ground (arith, send_yells-IsChorded yells s inv)) same
  act_on-IsChorded s issue preset runner (dispatch_with_advisory advisory) inv same =
      launch_chorded-IsChorded _ issue preset runner (ground arith) same
  act_on-IsChorded s issue preset runner dispatch inv same =
      launch_chorded-IsChorded (forget s issue) issue preset runner
        (record { bounded = inv.bounded }) same

  consider-IsChorded :
      (prs : List Pr) (s : Cycle) (issue : ℕ)
      → IsChorded s
      → IsChorded (consider w setup issues prs s issue)
  unfolding consider
  consider-IsChorded prs s issue inv = act_on-IsChorded s issue _ _ _ inv refl

  dispatch_one-IsChorded :
      (prs : List Pr) (s : Cycle) (issue : ℕ) (bucket : Bucket)
      → IsChorded s
      → IsChorded (dispatch_one w setup issues prs s issue bucket)
  unfolding dispatch_one dispatch_ready assign_human
  dispatch_one-IsChorded prs s issue Bucket.ready inv =
      ground (arith, consider-IsChorded prs s issue inv)
  dispatch_one-IsChorded prs s issue bucket inv = ground arith

  dispatch_all-IsChorded :
      (prs : List Pr) (cs : List Classification) (s : Cycle)
      → IsChorded s
      → IsChorded (dispatch_all w setup issues prs s cs)
  unfolding dispatch_all
  dispatch_all-IsChorded prs [] s inv = inv
  dispatch_all-IsChorded prs (c ∷ cs) s inv =
      dispatch_all-IsChorded prs cs _ (dispatch_one-IsChorded prs s c.issue c.bucket inv)

  -- Of the issues that a pass reports as triggered, at most one is dispatched under BUREAUCRATIC,
  -- and none if some open issue carried the in-flight label when the pass began. Issues under
  -- another preset that the same pass triggered before it do not count.
  pub chorded-le :
      (since : List (ℕ × ℕ)) (closed : List ℕ) (prs : List Pr)
      → chorded (act w setup since issues closed prs) ≤ (if any is_in_flight issues then 0 else 1)
  unfolding act
  chorded-le since closed prs =
      let s = prepared w setup since issues closed prs in
      let idle = prepared-IsIdle w 0 setup since issues closed prs in
      let begun : IsChorded s = record { bounded = rw idle.none_triggered (omega arith) } in
      let resolved = (resolve_prs w setup prs).0 in
      let cs = classifications w setup issues closed resolved in
      let end = dispatch_all-IsChorded resolved cs s begun in ground (arith, end.bounded)
