-- ===== src/Orchestrate/Cycle/Start.antt =====
-- The state of a pass when the last loop of `run_cycle` begins.
use conductr.Prelude.{
  ℕ, List, [], ◌∷◌, Option, none, some, Bool, false, not, ◌||◌, ◌&&◌, if◌then◌else◌, ◌==◌, ◌≡◌,
  refl, arith, Option-cases, Bool-cases, inl, inr,
}
use conductr.Core.Types.{Issue, Pr, Bucket, Classification, OrchestratorConfig}
use conductr.Orchestrate.Dispatch.{first_free}
use conductr.Orchestrate.Cycle.{
  World, Setup, Cycle, Trace, ClosedPr, add_issue_label, remove_issue_label,
}
use conductr.Orchestrate.Cycle.Survey.{clear_label, clear_opened, clear_closed, clear_labels}
use conductr.Orchestrate.Cycle.Merge.{
  merge_pr, merge_one, merge_passing, spawn_qa, qa_loop, spawn_qa_slots,
}
use conductr.Orchestrate.Cycle.Pass.{fresh, surveyed, prepared}

-- By the label calls of the trace, newest first: the last one about the issue that succeeded added
-- the label. A call that fails leaves the label as it is.
abbrev pub locked : ℕ → Trace → Bool
locked n [] = false
locked n ((add_issue_label m text, ok) ∷ older) =
    if m == n then ok || locked n older else locked n older
locked n ((remove_issue_label m text, ok) ∷ older) =
    if m == n then not ok && locked n older else locked n older
locked n ((c, ok) ∷ older) = locked n older

-- The label is there since taking it off failed: after it was added, a removal failed and none
-- succeeded.
abbrev pub rollback_failed : ℕ → Trace → Bool
rollback_failed n [] = false
rollback_failed n ((add_issue_label m text, ok) ∷ older) =
    if m == n then not ok && rollback_failed n older else rollback_failed n older
rollback_failed n ((remove_issue_label m text, ok) ∷ older) =
    if m == n then not ok && locked n older else rollback_failed n older
rollback_failed n ((c, ok) ∷ older) = rollback_failed n older

pub record IsIdle (n : ℕ) (s : Cycle) : Type 0 where
  pub none_dispatched : s.dispatched_this_pass ≡ 0
  pub none_triggered : s.report.triggered ≡ []
  pub not_locked : locked n s.trace ≡ false
  pub not_failed : rollback_failed n s.trace ≡ false
  pub no_bureaucratic : s.bureaucratic_dispatched ≡ false

module _ (w : World) (n : ℕ) where
  clear_label-IsIdle :
      (issues : List Issue) (s : Cycle) (o : Option ℕ)
      → IsIdle n s
      → IsIdle n (clear_label w issues s o)
  unfolding clear_label
  clear_label-IsIdle issues s none h = h
  clear_label-IsIdle issues s (some m) h = ground arith

  clear_opened-IsIdle :
      (issues : List Issue) (prs : List Pr) (s : Cycle)
      → IsIdle n s
      → IsIdle n (clear_opened w issues s prs)
  unfolding clear_opened
  clear_opened-IsIdle issues [] s h = h
  clear_opened-IsIdle issues (p ∷ ps) s h =
      clear_opened-IsIdle issues ps _ (clear_label-IsIdle issues s p.linked_issue h)

  clear_closed-IsIdle :
      (issues : List Issue) (prs : List ClosedPr) (s : Cycle)
      → IsIdle n s
      → IsIdle n (clear_closed w issues s prs)
  unfolding clear_closed
  clear_closed-IsIdle issues [] s h = h
  clear_closed-IsIdle issues (p ∷ ps) s h =
      clear_closed-IsIdle issues ps _ (clear_label-IsIdle issues s p.linked_issue h)

  clear_labels-IsIdle :
      (config : OrchestratorConfig) (issues : List Issue) (prs : List Pr) (closed : List ClosedPr)
      (s : Cycle)
      → IsIdle n s
      → IsIdle n (clear_labels w config issues prs closed s)
  unfolding clear_labels
  clear_labels-IsIdle config issues prs closed s h =
      let opened = clear_opened-IsIdle issues prs s h in
      let both = clear_closed-IsIdle issues closed (clear_opened w issues s prs) opened in
      elim (Bool-cases (not config.dry_run)) [ inl e ↦ rw e both | inr e ↦ rw e h ]

  merge_one-IsIdle :
      (config : OrchestratorConfig) (s : Cycle) (b : Bucket) (pr : Option ℕ)
      → IsIdle n s
      → IsIdle n (merge_one w config s b pr)
  unfolding merge_one merge_pr
  merge_one-IsIdle config s Bucket.pr_open (some pr) h = ground arith
  merge_one-IsIdle config s Bucket.pr_failing (some pr) h = ground arith
  merge_one-IsIdle config s b pr h = h

  merge_passing-IsIdle :
      (config : OrchestratorConfig) (cs : List Classification) (s : Cycle)
      → IsIdle n s
      → IsIdle n (merge_passing w config s cs)
  unfolding merge_passing
  merge_passing-IsIdle config [] s h = h
  merge_passing-IsIdle config (c ∷ cs) s h =
      merge_passing-IsIdle config cs _ (merge_one-IsIdle config s c.bucket c.pr h)

  spawn_qa-IsIdle :
      (config : OrchestratorConfig) (s : Cycle) (pr slot : ℕ)
      → IsIdle n s
      → IsIdle n (if config.dry_run then s else spawn_qa w config s pr slot)
  unfolding spawn_qa
  spawn_qa-IsIdle config s pr slot h = ground arith

  qa_loop-IsIdle :
      (config : OrchestratorConfig) (issues : List Issue) (prs : List Pr) (s : Cycle)
      → IsIdle n s
      → IsIdle n (qa_loop w config issues s prs)
  unfolding qa_loop
  qa_loop-IsIdle config issues [] s h = h
  qa_loop-IsIdle config issues (p ∷ ps) s h =
      elim (Option-cases (first_free s.qa_indices_in_use 1 config.max_parallel_qa)) [
        | inl e ↦ ground (arith, qa_loop-IsIdle config issues ps s h)
        | inr (slot, e) ↦ ground (
          arith,
          qa_loop-IsIdle config issues ps s h,
          qa_loop-IsIdle config issues ps _ (spawn_qa-IsIdle config s p.number slot h),
        )
      ]

  spawn_qa_slots-IsIdle :
      (setup : Setup) (issues : List Issue) (prs : List Pr) (s : Cycle)
      → IsIdle n s
      → IsIdle n (spawn_qa_slots w setup issues s prs)
  unfolding spawn_qa_slots
  spawn_qa_slots-IsIdle setup issues prs s h =
      ground (arith, qa_loop-IsIdle setup.config issues prs s h)

  surveyed-IsIdle :
      (setup : Setup) (since : List (ℕ × ℕ)) (issues : List Issue) (prs : List Pr)
      → IsIdle n (surveyed w setup since issues prs)
  unfolding surveyed
  surveyed-IsIdle setup since issues prs =
      let cleared = clear_labels-IsIdle setup.config issues prs _ (fresh since) (record {
        none_dispatched = refl;
        none_triggered = refl;
        not_locked = refl;
        not_failed = refl;
        no_bureaucratic = refl;
      }) in
      record {
        none_dispatched = cleared.none_dispatched;
        none_triggered = refl;
        not_locked = cleared.not_locked;
        not_failed = cleared.not_failed;
        no_bureaucratic = cleared.no_bureaucratic;
      }

  pub prepared-IsIdle :
      (setup : Setup) (since : List (ℕ × ℕ)) (issues : List Issue) (closed : List ℕ) (prs : List Pr)
      → IsIdle n (prepared w setup since issues closed prs)
  unfolding prepared
  prepared-IsIdle setup since issues closed prs =
      spawn_qa_slots-IsIdle setup issues _ _
        (merge_passing-IsIdle setup.config _ _ (surveyed-IsIdle setup since issues prs))
