-- ===== src/Orchestrate/Cycle/Caps.antt =====
-- How many issues one pass dispatches.
use conductr.Prelude.{
  ℕ, zero, suc, ◌+◌, ◌≤◌, ◌<◌, List, [], ◌∷◌, ◌++◌, some, if◌then◌else◌, contains, length,
  length-append, contains-append, ◌≡◌, refl, arith, Option-cases, inl, inr,
}
use conductr.Core.Types.{Issue, Pr, SafetyPreset, Bucket, Classification}
use conductr.Core.Signals.{MailKind}
use conductr.Orchestrate.Dispatch.{Runner, web, tmux, first_free}
use conductr.Orchestrate.Isolation.{
  IsolationDecision, dispatch, defer, dispatch_with_yell, dispatch_with_advisory,
}
use conductr.Orchestrate.Cycle.{World, Setup, Cycle}
use conductr.Orchestrate.Cycle.Launch.{
  deferred, remember, forget, count_dispatch, trigger_web, prompt_agent, spawn_agent,
  trigger_web_capped, launch_tmux, launch, launch_chorded, send_yells,
}
use conductr.Orchestrate.Cycle.Pass.{
  act_on, consider, dispatch_ready, assign_human, dispatch_one, dispatch_all, prepared, act,
  classifications,
}
use conductr.Orchestrate.Cycle.Survey.{resolve_prs}
use conductr.Orchestrate.Cycle.Start.{prepared-IsIdle}

-- The number of slots of `start..start + count` that are free.
free_count : List ℕ → ℕ → ℕ → ℕ
free_count active start zero = 0
free_count active start (suc count) =
    (if contains start active then 0 else 1) + free_count active (start + 1) count

free_count-le : (active : List ℕ) (start count : ℕ) → free_count active start count ≤ count
unfolding free_count
free_count-le active start zero = omega arith
free_count-le active start (suc count) = ground (arith, free_count-le active (start + 1) count)

free_count-append :
    (active more : List ℕ) (start count : ℕ)
    → free_count (active ++ more) start count ≤ free_count active start count
unfolding free_count
free_count-append active more start zero = omega arith
free_count-append active more start (suc count) =
    ground
      (arith, free_count-append active more (start + 1) count, contains-append start active more)

-- Taking the first free slot leaves one fewer.
free_count-take :
    (active : List ℕ) (start count slot : ℕ)
    → first_free active start count ≡ some slot
    → suc (free_count (active ++ slot ∷ []) start count) ≤ free_count active start count
unfolding free_count first_free
free_count-take active start zero slot h = cc
free_count-take active start (suc count) slot h = ground (
  arith,
  free_count-take active (start + 1) count slot,
  free_count-append active (slot ∷ []) (start + 1) count,
  contains-append start active (slot ∷ []),
)

-- The dispatches and the free slots together are at most twice the cap.
record IsCapped (max : ℕ) (s : Cycle) : Type 0 where
  within : s.dispatched_this_pass + free_count s.agent_indices_in_use 1 max ≤ max + max
  reported : length s.report.triggered ≡ s.dispatched_this_pass

module _ (w : World) (setup : Setup) where
  abbrev max : ℕ
  max = setup.config.max_parallel_beats

  trigger_web-IsCapped :
      (s : Cycle) (issue : ℕ) (preset : SafetyPreset)
      → IsCapped max s
      → s.dispatched_this_pass < max
      → IsCapped max (trigger_web w setup.config s issue preset)
  unfolding trigger_web count_dispatch
  trigger_web-IsCapped s issue preset inv h = ground (
    arith,
    free_count-le s.agent_indices_in_use 1 max,
    length-append s.report.triggered (issue ∷ []),
  )

  spawn_agent-IsCapped :
      (s : Cycle) (issue slot : ℕ) (preset : SafetyPreset)
      → IsCapped max s
      → first_free s.agent_indices_in_use 1 max ≡ some slot
      → IsCapped max (spawn_agent w setup.config s issue slot preset)
  unfolding spawn_agent prompt_agent count_dispatch
  spawn_agent-IsCapped s issue slot preset inv h = ground (
    arith,
    free_count-take s.agent_indices_in_use 1 max slot h,
    length-append s.report.triggered (issue ∷ []),
  )

  launch-IsCapped :
      (s : Cycle) (issue : ℕ) (preset : SafetyPreset) (runner : Runner)
      → IsCapped max s
      → IsCapped max (launch w setup s issue preset runner)
  unfolding launch launch_tmux trigger_web_capped
  launch-IsCapped s issue preset web inv = ground (arith, trigger_web-IsCapped s issue preset inv)
  launch-IsCapped s issue preset tmux inv =
      elim (Option-cases (first_free s.agent_indices_in_use 1 max)) [
        | inl e ↦ ground arith
        | inr (slot, e) ↦ ground (
          arith,
          trigger_web-IsCapped s issue preset inv,
          spawn_agent-IsCapped s issue slot preset inv e,
        )
      ]

  launch_chorded-IsCapped :
      (issues : List Issue) (s : Cycle) (issue : ℕ) (preset : SafetyPreset) (runner : Runner)
      → IsCapped max s
      → IsCapped max (launch_chorded w setup issues s issue preset runner)
  unfolding launch_chorded deferred
  launch_chorded-IsCapped issues s issue preset runner inv =
      ground (arith, launch-IsCapped s issue preset runner inv)

  send_yells-IsCapped :
      (ys : List MailKind) (s : Cycle) → IsCapped max s → IsCapped max (send_yells w s ys)
  unfolding send_yells
  send_yells-IsCapped [] s inv = inv
  send_yells-IsCapped (y ∷ ys) s inv =
      send_yells-IsCapped ys _ (record { within = inv.within; reported = inv.reported })

  forget-IsCapped : (s : Cycle) (issue : ℕ) → IsCapped max s → IsCapped max (forget s issue)
  unfolding forget
  forget-IsCapped s issue inv = ground arith

  act_on-IsCapped :
      (issues : List Issue) (s : Cycle) (issue : ℕ) (preset : SafetyPreset) (runner : Runner)
      (d : IsolationDecision)
      → IsCapped max s
      → IsCapped max (act_on w setup issues s issue preset runner d)
  unfolding act_on
  act_on-IsCapped issues s issue preset runner defer inv = unfold remember deferred in ground arith
  act_on-IsCapped issues s issue preset runner (dispatch_with_yell yells) inv =
      launch_chorded-IsCapped issues _ issue preset runner
        (forget-IsCapped _ issue (ground (arith, send_yells-IsCapped yells s inv)))
  act_on-IsCapped issues s issue preset runner (dispatch_with_advisory advisory) inv =
      launch_chorded-IsCapped issues _ issue preset runner (forget-IsCapped _ issue (ground arith))
  act_on-IsCapped issues s issue preset runner dispatch inv =
      launch_chorded-IsCapped issues _ issue preset runner (forget-IsCapped s issue inv)

  consider-IsCapped :
      (issues : List Issue) (prs : List Pr) (s : Cycle) (issue : ℕ)
      → IsCapped max s
      → IsCapped max (consider w setup issues prs s issue)
  unfolding consider
  consider-IsCapped issues prs s issue inv = act_on-IsCapped issues s issue _ _ _ inv

  dispatch_one-IsCapped :
      (issues : List Issue) (prs : List Pr) (s : Cycle) (issue : ℕ) (bucket : Bucket)
      → IsCapped max s
      → IsCapped max (dispatch_one w setup issues prs s issue bucket)
  unfolding dispatch_one dispatch_ready assign_human
  dispatch_one-IsCapped issues prs s issue Bucket.ready inv =
      ground (arith, consider-IsCapped issues prs s issue inv)
  dispatch_one-IsCapped issues prs s issue bucket inv = ground arith

  dispatch_all-IsCapped :
      (issues : List Issue) (prs : List Pr) (cs : List Classification) (s : Cycle)
      → IsCapped max s
      → IsCapped max (dispatch_all w setup issues prs s cs)
  unfolding dispatch_all
  dispatch_all-IsCapped issues prs [] s inv = inv
  dispatch_all-IsCapped issues prs (c ∷ cs) s inv =
      dispatch_all-IsCapped issues prs cs _
        (dispatch_one-IsCapped issues prs s c.issue c.bucket inv)

  -- A pass reports at most twice `max_parallel_beats` issues as triggered: the cap on GitHub
  -- comments and the pool of tmux slots each bound a part.
  pub length-triggered-le :
      (since : List (ℕ × ℕ)) (issues : List Issue) (closed : List ℕ) (prs : List Pr)
      → length (act w setup since issues closed prs).report.triggered ≤ max + max
  unfolding act
  length-triggered-le since issues closed prs =
      let s = prepared w setup since issues closed prs in
      let idle = prepared-IsIdle w 0 setup since issues closed prs in
      let begun : IsCapped max s = record {
        within = omega (arith, free_count-le s.agent_indices_in_use 1 max, idle.none_dispatched);
        reported = rw (idle.none_triggered, idle.none_dispatched) refl;
      } in
      let resolved = (resolve_prs w setup prs).0 in
      let cs = classifications w setup issues closed resolved in
      let end = dispatch_all-IsCapped issues resolved cs s begun in
      omega (arith, end.within, end.reported)
