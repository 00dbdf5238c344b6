-- ===== src/Orchestrate/Cycle/Quiet.antt =====
-- What a dry run does outside, up to the write-back of the tempo rows.
use conductr.Prelude.{
  ℕ, List, [], ◌∷◌, Option, some, Bool, true, false, all, ◌≡◌, arith, Option-cases, inl, inr,
}
use conductr.Core.Types.{Issue, Pr, SafetyPreset, Bucket, Classification}
use conductr.Core.Signals.{MailKind}
use conductr.Orchestrate.Dispatch.{Runner, web, tmux, first_free}
use conductr.Orchestrate.Isolation.{
  IsolationDecision, dispatch, defer, dispatch_with_yell, dispatch_with_advisory,
}
use conductr.Orchestrate.Cycle.{World, Setup, Cycle, Call, Trace, send_mail}
use conductr.Orchestrate.Cycle.Survey.{clear_labels, resolve_prs}
use conductr.Orchestrate.Cycle.Merge.{merge_pr, merge_one, merge_passing, qa_loop, spawn_qa_slots}
use conductr.Orchestrate.Cycle.Launch.{
  deferred, remember, forget, launch_tmux, launch, launch_chorded, send_yells,
}
use conductr.Orchestrate.Cycle.Pass.{
  act_on, consider, dispatch_ready, assign_human, dispatch_one, dispatch_all, surveyed, prepared,
  act, classifications,
}

abbrev pub is_mail : Call → Bool
is_mail (send_mail kind) = true
is_mail _ = false

abbrev pub only_mail : Trace → Bool
only_mail = all (λ (c, ok). is_mail c)

-- Nothing was written but mail, and nothing is reported as done.
pub record IsQuiet (s : Cycle) : Type 0 where
  pub calls : only_mail s.trace ≡ true
  pub triggered : s.report.triggered ≡ []
  pub merged : s.report.merged ≡ []

module _ (w : World) (setup : Setup) (dry : setup.config.dry_run ≡ true) where
  surveyed-IsQuiet :
      (since : List (ℕ × ℕ)) (issues : List Issue) (prs : List Pr)
      → IsQuiet (surveyed w setup since issues prs)
  unfolding surveyed clear_labels
  surveyed-IsQuiet since issues prs = ground arith

  merge_one-IsQuiet :
      (s : Cycle) (b : Bucket) (pr : Option ℕ)
      → IsQuiet s
      → IsQuiet (merge_one w setup.config s b pr)
  unfolding merge_one merge_pr
  merge_one-IsQuiet s Bucket.pr_open (some pr) h = ground arith
  merge_one-IsQuiet s Bucket.pr_failing (some pr) h = ground arith
  merge_one-IsQuiet s b pr h = h

  merge_passing-IsQuiet :
      (cs : List Classification) (s : Cycle)
      → IsQuiet s
      → IsQuiet (merge_passing w setup.config s cs)
  unfolding merge_passing
  merge_passing-IsQuiet [] s h = h
  merge_passing-IsQuiet (c ∷ cs) s h =
      merge_passing-IsQuiet cs _ (merge_one-IsQuiet s c.bucket c.pr h)

  launch-IsQuiet :
      (s : Cycle) (issue : ℕ) (preset : SafetyPreset) (runner : Runner)
      → IsQuiet s
      → IsQuiet (launch w setup s issue preset runner)
  unfolding launch launch_tmux
  launch-IsQuiet s issue preset web h = ground arith
  launch-IsQuiet s issue preset tmux h = ground arith

  launch_chorded-IsQuiet :
      (issues : List Issue) (s : Cycle) (issue : ℕ) (preset : SafetyPreset) (runner : Runner)
      → IsQuiet s
      → IsQuiet (launch_chorded w setup issues s issue preset runner)
  unfolding launch_chorded deferred
  launch_chorded-IsQuiet issues s issue preset runner h =
      ground (arith, launch-IsQuiet s issue preset runner h)

  send_yells-IsQuiet : (ys : List MailKind) (s : Cycle) → IsQuiet s → IsQuiet (send_yells w s ys)
  unfolding send_yells
  send_yells-IsQuiet [] s h = h
  send_yells-IsQuiet (y ∷ ys) s h = send_yells-IsQuiet ys _ (ground arith)

  act_on-IsQuiet :
      (issues : List Issue) (s : Cycle) (issue : ℕ) (preset : SafetyPreset) (runner : Runner)
      (d : IsolationDecision)
      → IsQuiet s
      → IsQuiet (act_on w setup issues s issue preset runner d)
  unfolding act_on forget
  act_on-IsQuiet issues s issue preset runner defer h = unfold remember deferred in ground arith
  act_on-IsQuiet issues s issue preset runner (dispatch_with_yell yells) h =
      launch_chorded-IsQuiet issues _ issue preset runner
        (ground (arith, send_yells-IsQuiet yells s h))
  act_on-IsQuiet issues s issue preset runner (dispatch_with_advisory advisory) h =
      launch_chorded-IsQuiet issues _ issue preset runner (ground arith)
  act_on-IsQuiet issues s issue preset runner dispatch h =
      launch_chorded-IsQuiet issues (forget s issue) issue preset runner (ground arith)

  consider-IsQuiet :
      (issues : List Issue) (prs : List Pr) (s : Cycle) (issue : ℕ)
      → IsQuiet s
      → IsQuiet (consider w setup issues prs s issue)
  unfolding consider
  consider-IsQuiet issues prs s issue h = act_on-IsQuiet issues s issue _ _ _ h

  dispatch_one-IsQuiet :
      (issues : List Issue) (prs : List Pr) (s : Cycle) (issue : ℕ) (bucket : Bucket)
      → IsQuiet s
      → IsQuiet (dispatch_one w setup issues prs s issue bucket)
  unfolding dispatch_one dispatch_ready assign_human
  dispatch_one-IsQuiet issues prs s issue Bucket.ready h =
      ground (arith, consider-IsQuiet issues prs s issue h)
  dispatch_one-IsQuiet issues prs s issue bucket h = ground arith

  dispatch_all-IsQuiet :
      (issues : List Issue) (prs : List Pr) (cs : List Classification) (s : Cycle)
      → IsQuiet s
      → IsQuiet (dispatch_all w setup issues prs s cs)
  unfolding dispatch_all
  dispatch_all-IsQuiet issues prs [] s h = h
  dispatch_all-IsQuiet issues prs (c ∷ cs) s h =
      dispatch_all-IsQuiet issues prs cs _ (dispatch_one-IsQuiet issues prs s c.issue c.bucket h)

  qa_loop-IsQuiet :
      (issues : List Issue) (prs : List Pr) (s : Cycle)
      → IsQuiet s
      → IsQuiet (qa_loop w setup.config issues s prs)
  unfolding qa_loop
  qa_loop-IsQuiet issues [] s h = h
  qa_loop-IsQuiet issues (p ∷ ps) s h =
      elim (Option-cases (first_free s.qa_indices_in_use 1 setup.config.max_parallel_qa)) [
        | inl e ↦ ground (arith, qa_loop-IsQuiet issues ps s h)
        | inr (slot, e) ↦ ground (arith, qa_loop-IsQuiet issues ps s h)
      ]

  -- Up to the write-back of the tempo rows, a dry run makes no call of the SCM host or of tmux that
  -- changes something: no label, comment, assignment, merge or session. It may send mail. It reports
  -- nothing as merged or triggered. Nothing is said of the file `.conductr`.
  pub act-IsQuiet :
      (since : List (ℕ × ℕ)) (issues : List Issue) (closed : List ℕ) (prs : List Pr)
      → IsQuiet (act w setup since issues closed prs)
  unfolding act prepared spawn_qa_slots
  act-IsQuiet since issues closed prs =
      let resolved = (resolve_prs w setup prs).0 in
      let cs = classifications w setup issues closed resolved in
      let merged = merge_passing-IsQuiet cs _ (surveyed-IsQuiet since issues prs) in
      dispatch_all-IsQuiet issues resolved cs _
        (ground (arith, qa_loop-IsQuiet issues resolved _ merged))
