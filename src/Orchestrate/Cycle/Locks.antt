-- ===== src/Orchestrate/Cycle/Locks.antt =====
-- The label `conductr:in-flight` as a lock, and the issues that a pass triggers.
use conductr.Prelude.{
  ℕ, List, [], ◌∷◌, Bool, true, false, if◌then◌else◌, ◌==◌, ◌||◌, ◌&&◌, map, contains,
  contains-append, ◌≡◌, refl, arith, Bool-cases, Option-cases, inl, inr, ==_iff, ◌∙◌, sym, subst,
}
use mathlib.Core.Path.{ap₂}
use mathlib.Core.Bool.{false≢true}
use conductr.Orchestrate.Deps.{Regexes}
use conductr.Orchestrate.Classifier.{classify}
use conductr.Core.Types.{Issue, Pr, SafetyPreset, Bucket, Classification}
use conductr.Core.Signals.{MailKind}
use conductr.Orchestrate.Dispatch.{Runner, web, tmux, first_free}
use conductr.Orchestrate.Isolation.{
  IsolationDecision, dispatch, defer, dispatch_with_yell, dispatch_with_advisory,
}
use conductr.Orchestrate.Cycle.{World, Setup, Cycle, made, comment_issue}
use conductr.Orchestrate.Cycle.Survey.{resolve_prs}
use conductr.Orchestrate.Cycle.Launch.{
  deferred, remember, forget, count_dispatch, trigger_web, prompt_agent, spawn_agent,
  trigger_web_capped, launch_tmux, launch, launch_chorded, send_yells,
}
use conductr.Orchestrate.Cycle.Pass.{
  act_on, consider, dispatch_ready, assign_human, dispatch_one, dispatch_all, act, classifications,
}
use conductr.Orchestrate.Cycle.Start.{locked, rollback_failed, prepared-IsIdle}

-- No number twice.
abbrev pub IsDistinct : List ℕ → Type 0
IsDistinct [] = Unit
IsDistinct (x ∷ xs) = (contains x xs ≡ false) × IsDistinct xs

abbrev pub was_triggered : ℕ → Cycle → Bool
was_triggered n s = contains n s.report.triggered

-- The lock of issue `n` is held if and only if the issue was triggered or its rollback failed, never
-- both.
abbrev pub IsHeld : ℕ → Cycle → Type 0
IsHeld n s =
    (locked n s.trace ≡ (was_triggered n s || rollback_failed n s.trace))
    × ((was_triggered n s && rollback_failed n s.trace) ≡ false)

-- As seen by issue `n`: a step for issue `m` finds `m` not locked yet.
record Agrees (n m : ℕ) (s : Cycle) : Type 0 where
  held : IsHeld n s
  first_time : (m == n) ≡ true → locked n s.trace ≡ false

-- What a step for issue `m` does for issue `n`.
record Keeps (n m : ℕ) (s s' : Cycle) : Type 0 where
  held : IsHeld n s'
  others : (m == n) ≡ false → locked n s'.trace ≡ locked n s.trace

module _ (w : World) (setup : Setup) (n : ℕ) where
  trigger_web-Keeps :
      (s : Cycle) (m : ℕ) (preset : SafetyPreset)
      → Agrees n m s
      → Keeps n m s (trigger_web w setup.config s m preset)
  unfolding trigger_web count_dispatch
  trigger_web-Keeps s m preset h = ground (arith, contains-append n s.report.triggered (m ∷ []))

  spawn_agent-Keeps :
      (s : Cycle) (m slot : ℕ) (preset : SafetyPreset)
      → Agrees n m s
      → Keeps n m s (spawn_agent w setup.config s m slot preset)
  unfolding spawn_agent prompt_agent count_dispatch
  spawn_agent-Keeps s m slot preset h =
      ground (arith, contains-append n s.report.triggered (m ∷ []))

  launch-Keeps :
      (s : Cycle) (m : ℕ) (preset : SafetyPreset) (runner : Runner)
      → Agrees n m s
      → Keeps n m s (launch w setup s m preset runner)
  unfolding launch launch_tmux trigger_web_capped
  launch-Keeps s m preset web h = ground (arith, trigger_web-Keeps s m preset h)
  launch-Keeps s m preset tmux h =
      elim (Option-cases (first_free s.agent_indices_in_use 1 setup.config.max_parallel_beats)) [
        | inl e ↦ ground arith
        | inr (slot, e) ↦
            ground (arith, trigger_web-Keeps s m preset h, spawn_agent-Keeps s m slot preset h)
      ]

  launch_chorded-Keeps :
      (issues : List Issue) (s : Cycle) (m : ℕ) (preset : SafetyPreset) (runner : Runner)
      → Agrees n m s
      → Keeps n m s (launch_chorded w setup issues s m preset runner)
  unfolding launch_chorded deferred
  launch_chorded-Keeps issues s m preset runner h = ground (arith, launch-Keeps s m preset runner h)

  send_yells-Agrees :
      (ys : List MailKind) (m : ℕ) (s : Cycle)
      → Agrees n m s
      → Agrees n m (send_yells w s ys) × (locked n (send_yells w s ys).trace ≡ locked n s.trace)
  unfolding send_yells
  send_yells-Agrees [] m s h = (h, refl)
  send_yells-Agrees (y ∷ ys) m s h =
      send_yells-Agrees ys m _ (record { held = h.held; first_time = h.first_time })

  act_on-Keeps :
      (issues : List Issue) (s : Cycle) (m : ℕ) (preset : SafetyPreset) (runner : Runner)
      (d : IsolationDecision)
      → Agrees n m s
      → Keeps n m s (act_on w setup issues s m preset runner d)
  unfolding act_on forget
  act_on-Keeps issues s m preset runner defer h = unfold remember deferred in ground arith
  act_on-Keeps issues s m preset runner (dispatch_with_yell yells) h =
      let sent = send_yells-Agrees yells m s h in
      let s' = forget (if setup.has_mailbox then send_yells w s yells else s) m in
      let after : Agrees n m s' = ground arith in
      let last = launch_chorded-Keeps issues s' m preset runner after in
      record { held = last.held; others = λ e. last.others e ∙ ground arith }
  act_on-Keeps issues s m preset runner (dispatch_with_advisory advisory) h =
      let s' = forget (if setup.config.dry_run then s else made w s (comment_issue m advisory)) m in
      let after : Agrees n m s' = ground arith in
      let last = launch_chorded-Keeps issues s' m preset runner after in
      record { held = last.held; others = λ e. last.others e ∙ ground arith }
  act_on-Keeps issues s m preset runner dispatch h =
      let last =
        launch_chorded-Keeps issues (forget s m) m preset runner
          (record { held = h.held; first_time = h.first_time }) in
      record { held = last.held; others = last.others }

  consider-Keeps :
      (issues : List Issue) (prs : List Pr) (s : Cycle) (m : ℕ)
      → Agrees n m s
      → Keeps n m s (consider w setup issues prs s m)
  unfolding consider
  consider-Keeps issues prs s m h = act_on-Keeps issues s m _ _ _ h

  dispatch_one-Keeps :
      (issues : List Issue) (prs : List Pr) (s : Cycle) (m : ℕ) (bucket : Bucket)
      → Agrees n m s
      → Keeps n m s (dispatch_one w setup issues prs s m bucket)
  unfolding dispatch_one dispatch_ready assign_human
  dispatch_one-Keeps issues prs s m Bucket.ready h = ground (arith, consider-Keeps issues prs s m h)
  dispatch_one-Keeps issues prs s m bucket h = ground arith

  dispatch_all-IsHeld :
      (issues : List Issue) (prs : List Pr) (cs : List Classification) (s : Cycle)
      → IsDistinct (map (λ (c : Classification). c.issue) cs)
      → IsHeld n s
      → (contains n (map (λ (c : Classification). c.issue) cs) ≡ true → locked n s.trace ≡ false)
      → IsHeld n (dispatch_all w setup issues prs s cs)
  unfolding dispatch_all
  dispatch_all-IsHeld issues prs [] s d held first_time = held
  dispatch_all-IsHeld issues prs (c ∷ cs) s d held first_time =
      let agrees : Agrees n c.issue s = record {
        held = held;
        first_time = λ e. first_time (ground arith);
      } in
      let step = dispatch_one-Keeps issues prs s c.issue c.bucket agrees in
      dispatch_all-IsHeld issues prs cs _ d.1 step.held (λ later. elim (Bool-cases (c.issue == n)) [
        | inl e ↦
            let same : c.issue ≡ n = (==_iff c.issue n).0 e in
            let absent : contains n (map (λ (c : Classification). c.issue) cs) ≡ false =
              subst (λ k. contains k (map (λ (c : Classification). c.issue) cs) ≡ false) same d.0 in
            absurd (false≢true (sym absent ∙ later))
        | inr e ↦ step.others e ∙ first_time (ground arith)
      ])

issue-classify :
    (re : Regexes) (i : Issue) (closed : List ℕ) (prs : List Pr) (triggered : List ℕ)
    → (classify re i closed prs triggered).issue ≡ i.number
unfolding classify
issue-classify re i closed prs triggered = ground arith

issues-classify :
    (re : Regexes) (issues : List Issue) (closed : List ℕ) (prs : List Pr) (triggered : List ℕ)
    → map (λ (c : Classification). c.issue) (map (λ i. classify re i closed prs triggered) issues)
      ≡ map (λ (i : Issue). i.number) issues
issues-classify re [] closed prs triggered = refl
issues-classify re (i ∷ is) closed prs triggered =
    ap₂ ◌∷◌ (issue-classify re i closed prs triggered) (issues-classify re is closed prs triggered)

-- If no two open issues have the same number, then after a pass the in-flight label that the pass
-- put on an issue is still there, by the calls that succeeded, exactly if the pass reports the issue
-- as triggered, or the dispatch failed and the call that was to take the label off failed too; and
-- never are both the case.
pub locked-triggered :
    (w : World) (setup : Setup) (since : List (ℕ × ℕ)) (issues : List Issue) (closed : List ℕ)
    (prs : List Pr) (n : ℕ)
    → IsDistinct (map (λ (i : Issue). i.number) issues)
    → IsHeld n (act w setup since issues closed prs)
unfolding act
locked-triggered w setup since issues closed prs n distinct =
    let idle = prepared-IsIdle w n setup since issues closed prs in
    let resolved = (resolve_prs w setup prs).0 in
    let cs = classifications w setup issues closed resolved in
    let numbers : map (λ (c : Classification). c.issue) cs ≡ map (λ (i : Issue). i.number) issues =
      unfold classifications in issues-classify w.regexes issues closed resolved _ in
    dispatch_all-IsHeld w setup n issues resolved cs _ (rw numbers distinct)
      (ground (arith, idle.not_locked, idle.not_failed, idle.none_triggered)) (λ _. idle.not_locked)
