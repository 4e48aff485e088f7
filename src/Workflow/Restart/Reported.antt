-- ===== src/Workflow/Restart/Reported.antt =====
-- crates/pool-workflow/src/restart.rs: a restart accounts for each live workflow.
use tig_mining_pool_public.Common.{
  ◌≡◌, ◌≢◌, ◌↔◌, refl, true, false, not, ◌&&◌, ◌⊎◌, inl, inr, List, [], ◌∷◌, ◌++◌, Result, ok, err,
  All, All-In, All-of_In, In, In-append, In-keep, Bool-cases, arith,
}
use tig_mining_pool_public.Common.Bytes.{Bytes}
use tig_mining_pool_public.Common.Sort.{In-sort_by}
use tig_mining_pool_public.Gateway.Network.{Network, is_same}
use tig_mining_pool_public.Workflow.Lifecycle.{
  WorkflowState, is_terminal, is_state, Workflow, WorkflowError, Db,
}
use tig_mining_pool_public.Workflow.Lifecycle.Expiry.{by_id, in_states}
use tig_mining_pool_public.Workflow.Lifecycle.Kept.{is_same_refl}
use tig_mining_pool_public.Workflow.Lifecycle.Steps.{Steps, stays}
use tig_mining_pool_public.Workflow.Restart.{
  ConfirmedWindow, Reconciled, NeedsAttention, failed, RestartReport, Answer, advance_one, noted,
  advance_all, nonterminal, reconcile_after_restart,
}
use tig_mining_pool_public.Workflow.Restart.Called.{trans, advance_one-Steps}
use tig_mining_pool_public.Workflow.Restart.Landed.{IsIn, Lands, advance_one-Lands}

-- What the report has of a turn that ended so: an error as a failure, a state that is the one before
-- as unchanged, and any other, which is then the row's, as advanced from the one to the other.
abbrev pub Tells :
    {V : Type 0}
    → Network
    → Workflow V
    → Db V
    → Result WorkflowError WorkflowState
    → RestartReport
    → Type 0
Tells network w t (err why) report = In (failed w.workflow_id why) report.needs_attention
Tells network w t (ok to) report =
    ((to ≡ w.state) × In w.workflow_id report.unchanged)
    ⊎ ((to ≢ w.state)
        × IsIn network w.workflow_id to t
        × In (record { workflow_id = w.workflow_id; from = w.state; to = to }) report.advanced)

left : {A : Type 0} (x : A) (xs ys : List A) → In x xs → In x (xs ++ ys)
left x xs ys i = (In-append x xs ys).1 (inl i)

last : {A : Type 0} (x : A) (xs : List A) → In x (xs ++ x ∷ [])
last x xs = (In-append x xs (x ∷ [])).1 (inr (inl refl))

middle : {A : Type 0} (x : A) (xs ys zs : List A) → In x ys → In x (xs ++ (ys ++ zs))
middle x xs ys zs i = (In-append x xs (ys ++ zs)).1 (inr ((In-append x ys zs).1 (inl i)))

is_state_iff : (a b : WorkflowState) → (is_state a b ≡ true) ↔ (a ≡ b)
is_state_iff a b = ground arith

-- What is in a report stays in it.
record Grows (a b : RestartReport) : Type 0 where
  advances : (r : Reconciled) → In r a.advanced → In r b.advanced
  idles : (id : Bytes) → In id a.unchanged → In id b.unchanged
  attends : (x : NeedsAttention) → In x a.needs_attention → In x b.needs_attention

module _ {V : Type 0} where
  -- The report has the turn of a workflow, with all that was pushed in it.
  abbrev pub HasTurn : Network → Workflow V → Answer V → RestartReport → Type 0
  HasTurn network w answer report =
      All (λ x. In x report.needs_attention) answer.1 × Tells network w answer.0 answer.2 report

  noted-Grows :
      (w : Workflow V) (pushed : List NeedsAttention) (r : Result WorkflowError WorkflowState)
      (report : RestartReport)
      → Grows report (noted w pushed r report)
  noted-Grows w pushed (err why) report = record {
    advances = λ r i. i;
    idles = λ id i. i;
    attends = λ x i. left x report.needs_attention _ i;
  }
  noted-Grows w pushed (ok to) report = elim (Bool-cases (is_state to w.state)) [
    | inl e ↦ rw e (record {
      advances = λ r i. i;
      idles = λ id i. left id report.unchanged _ i;
      attends = λ x i. left x report.needs_attention _ i;
    })
    | inr e ↦ rw e (record {
      advances = λ r i. left r report.advanced _ i;
      idles = λ id i. i;
      attends = λ x i. left x report.needs_attention _ i;
    })
  ]

  HasTurn-Grows :
      (network : Network) (w : Workflow V) (answer : Answer V) (a b : RestartReport)
      → Grows a b
      → HasTurn network w answer a
      → HasTurn network w answer b
  HasTurn-Grows network w (t, pushed, r) a b g (all, tells) =
      (All-of_In _ pushed (λ x i. g.attends x (All-In _ x pushed all i)), told r tells)
    where
      told :
          (r : Result WorkflowError WorkflowState) → Tells network w t r a → Tells network w t r b
      told (err why) h = g.attends _ h
      told (ok to) (inl (e, i)) = inl (e, g.idles _ i)
      told (ok to) (inr (e, v, i)) = inr (e, v, g.advances _ i)

  noted-HasTurn :
      (network : Network) (w : Workflow V) (s : Db V) (answer : Answer V) (report : RestartReport)
      → Lands network w.workflow_id w.state s answer
      → HasTurn network w answer (noted w answer.1 answer.2 report)
  noted-HasTurn network w s (t, pushed, err why) report l = (
    All-of_In _ pushed (λ x i. middle x report.needs_attention pushed _ i),
    (In-append _ report.needs_attention (pushed ++ failed w.workflow_id why ∷ [])).1
        (inr (last (failed w.workflow_id why) pushed)),
  )
  noted-HasTurn network w s (t, pushed, ok to) report l = elim (Bool-cases (is_state to w.state)) [
    | inl e ↦ rw e (
      All-of_In _ pushed (λ x i. (In-append x report.needs_attention pushed).1 (inr i)),
      inl ((is_state_iff to w.state).0 e, last w.workflow_id report.unchanged),
    )
    | inr e ↦ rw e (
      All-of_In _ pushed (λ x i. (In-append x report.needs_attention pushed).1 (inr i)),
      inr (changed e, row l (changed e), last _ report.advanced),
    )
  ]
    where
      changed : is_state to w.state ≡ false → to ≢ w.state
      changed e q = let k = (is_state_iff to w.state).1 q in cc

      row :
          ((t ≡ s) × (to ≡ w.state)) ⊎ IsIn network w.workflow_id to t
          → to ≢ w.state
          → IsIn network w.workflow_id to t
      row (inl (p, q)) n = absurd (n q)
      row (inr v) n = v

  -- The turn of a workflow in a run from one database to another.
  abbrev pub TakesTurn :
      Network → ConfirmedWindow V → Workflow V → Db V → Db V → RestartReport → Type 0
  TakesTurn network window w s t report =
      (m : Db V) × Steps s m
      × Steps m (advance_one network window w m).0
      × Steps (advance_one network window w m).0 t
      × HasTurn network w (advance_one network window w m) report

  advance_all-Turns :
      (network : Network) (window : ConfirmedWindow V) (ws : List (Workflow V)) (s : Db V)
      (report : RestartReport)
      → Steps s (advance_all network window ws s report).0
        × Grows report (advance_all network window ws s report).1
        × ((w : Workflow V)
            → In w ws
            → TakesTurn network window w s
                (advance_all network window ws s report).0
                (advance_all network window ws s report).1)
  unfolding advance_all
  advance_all-Turns network window [] s report = (
    stays s,
    record { advances = λ r i. i; idles = λ id i. i; attends = λ x i. i },
    λ w i. absurd i,
  )
  advance_all-Turns network window (x ∷ rest) s report =
      let answer = advance_one network window x s in
      let next = noted x answer.1 answer.2 report in
      let (steps, grown, turns) = advance_all-Turns network window rest answer.0 next in
      let first = advance_one-Steps network window x s in
      let here = noted-Grows x answer.1 answer.2 report in
      (
        trans s answer.0 _ first steps,
        record {
          advances = λ r i. grown.advances r (here.advances r i);
          idles = λ id i. grown.idles id (here.idles id i);
          attends = λ n i. grown.attends n (here.attends n i);
        },
        λ w i. elim i [
          | inl e ↦ rw e (
            s,
            stays s,
            first,
            steps,
            HasTurn-Grows network x answer next _ grown
                (noted-HasTurn network x s answer report (advance_one-Lands network window x s)),
          )
          | inr j ↦
              let (m, a, b, c, told) = turns w j in (m, trans s answer.0 m first a, b, c, told)
        ],
      )

  -- Whatever the window, a workflow of the network that was not in a terminal state has its turn in a
  -- restart, on a database that calls led to and that calls lead on from, and the report has all that
  -- the turn pushed, with how it ended: an error as a failure, the state that the workflow was in as
  -- unchanged, and another state, which its row then has, as an advance from the one to the other.
  pub reconcile_after_restart-Reports :
      (network : Network) (window : ConfirmedWindow V) (s : Db V) (w : Workflow V)
      → In w s.workflows
      → w.network ≡ network
      → is_terminal w.state ≡ false
      → TakesTurn network window w s
          (reconcile_after_restart network window s).0
          (reconcile_after_restart network window s).1
  unfolding reconcile_after_restart nonterminal in_states
  reconcile_after_restart-Reports network window s w i n t =
      let (_, _, turns) = advance_all-Turns network window (nonterminal network s) s _ in
      turns w (
        (In-sort_by by_id w _).1 (
          In-keep (λ x. is_same x.network network && not (is_terminal x.state)) w s.workflows i
            (rw (n, t) (rw (is_same_refl network)))))
