-- ===== src/Gateway/Claim/Once.antt =====
-- crates/tig-gateway/src/claim.rs: when a write is sent.
use tig_mining_pool_public.Common.{
  ◌≤◌, ◌≡◌, ◌≢◌, ◌↔◌, refl, if◌then◌else◌, Bool, true, false, not, ◌||◌, Bool-cases, inl, inr,
  Option, none, some, List, [], ◌∷◌, find?, Result, ok, err, arith,
}
use tig_mining_pool_public.Common.Bytes.{Bytes, same, cmp-eq_iff}
use tig_mining_pool_public.Common.Map.{Map}
use tig_mining_pool_public.Workflow.Intent.{
  WriteIntent, prepared, precommit, is_kind, is_claimable, kind_str,
}
use tig_mining_pool_public.Workflow.Attempt.{WriteAttempt, is_unresolved}
use tig_mining_pool_public.Workflow.Payload.{Json, PrecommitSubmission}
use tig_mining_pool_public.Workflow.Reconcile.{
  Reconciliation, ReconcileError, shape, reconcile_precommit,
}
use tig_mining_pool_public.Gateway.Claim.{
  ClaimDecision, transmit, OwningWorkflow, SiblingGenerations, StopReason, SkipReason,
  already_settled, not_a_precommit, payload_not_the_recorded_one, reconciled, compute_class_of,
  is_served, any, was_accepted, stop, skip,
}
use tig_mining_pool_public.Gateway.Claim.Decide.{stray, is_stray, decide_unsent, decide}

-- What sending a precommit is right for.
pub record IsSendable (intent : WriteIntent) (attempts : List WriteAttempt)
    (workflow : OwningWorkflow) (siblings : SiblingGenerations) (digest : Bytes)
    (class : Option Bytes) (served : List Bytes) : Type 0 where
  pub kind : intent.write_kind ≡ precommit
  pub described : digest ≡ intent.payload_digest
  pub unattempted : attempts ≡ []
  pub awaits : intent.state ≡ prepared
  pub live : workflow.is_terminal ≡ false
  pub newest : siblings.newest_generation ≤ intent.generation
  pub alone : siblings.sibling_transmitted ≡ false
  pub in_service : is_served class served ≡ true

reconciled-not_sent :
    (r : Result ReconcileError Reconciliation) (b : Bool) → reconciled r b ≢ transmit
unfolding reconciled
reconciled-not_sent (ok (Reconciliation.confirmed id)) b e = cc
reconciled-not_sent (ok Reconciliation.pending_confirmation) b e = cc
reconciled-not_sent (ok (Reconciliation.stop_for_operator ids)) b e = cc
reconciled-not_sent (ok Reconciliation.no_candidate) true e = cc
reconciled-not_sent (ok Reconciliation.no_candidate) false e = cc
reconciled-not_sent (err (shape index reason)) b e = cc

decide_unsent_some :
    (intent : WriteIntent) (a : WriteAttempt) (rest : List WriteAttempt) (w : OwningWorkflow)
    (s : SiblingGenerations) (t : Bytes) (c : Option Bytes) (served : List Bytes)
    → decide_unsent intent (a ∷ rest) w s t c served ≢ transmit
unfolding decide_unsent
decide_unsent_some intent a rest w s t c served e = elim (Bool-cases (is_served c served)) [
  | inl q ↦ let k = rw q at e in cc
  | inr q ↦ let k = rw q at e in cc
]

neither :
    (b : Bool) (x y : ClaimDecision) → x ≢ transmit → y ≢ transmit → (if b then x else y) ≢ transmit
neither true x y h k = h
neither false x y h k = k

skip-not_sent : (why : SkipReason) → skip why ≢ transmit
skip-not_sent why e = cc

stop-not_sent : (why : StopReason) → stop why ≢ transmit
stop-not_sent why e = cc

stray-not_sent :
    (o : Option WriteAttempt) (intent : WriteIntent) (next : ClaimDecision)
    → next ≢ transmit
    → stray o intent next ≢ transmit
stray-not_sent none intent next h = h
stray-not_sent (some a) intent next h = stop-not_sent _

module _ {Value : Type 0} (json : Json Value) (precommit_digest : PrecommitSubmission Value → Bytes)
    (types_by_vendor : Map (List Bytes)) (class_by_vendor : Map Bytes) where
  attempted :
      (intent : WriteIntent) (a : WriteAttempt) (rest : List WriteAttempt) (w : OwningWorkflow)
      (s : SiblingGenerations) (submitted : PrecommitSubmission Value) (read : List Value)
      (served : List Bytes)
      → decide json precommit_digest types_by_vendor class_by_vendor intent
          (a ∷ rest)
          w
          s
          submitted
          read
          served
        ≢ transmit
  unfolding decide
  attempted intent a rest w s submitted read served =
      let class = compute_class_of types_by_vendor class_by_vendor submitted.compute_type in
      let late = decide_unsent intent (a ∷ rest) w s submitted.compute_type class served in
      let known =
        reconciled (reconcile_precommit json read submitted) (any was_accepted (a ∷ rest)) in
      let owed =
        if any was_accepted (a ∷ rest) || any (λ b. is_unresolved b.outcome) (a ∷ rest)
        then known
        else late in
      let open_ = if not (is_claimable intent.state) then skip already_settled else owed in
      let described =
        if not (same (precommit_digest submitted) intent.payload_digest)
        then stop payload_not_the_recorded_one
        else open_ in
      neither (not (is_kind intent.write_kind precommit))
        (skip (not_a_precommit (kind_str intent.write_kind)))
        (stray (find? (is_stray intent) (a ∷ rest)) intent described) (skip-not_sent _)
        (stray-not_sent (find? (is_stray intent) (a ∷ rest)) intent described (
          neither (not (same (precommit_digest submitted) intent.payload_digest))
            (stop payload_not_the_recorded_one) open_ (stop-not_sent _)
            (neither (not (is_claimable intent.state)) (skip already_settled) owed (skip-not_sent _)
              (neither
                (any was_accepted (a ∷ rest) || any (λ b. is_unresolved b.outcome) (a ∷ rest)) known
                late
                (reconciled-not_sent (reconcile_precommit json read submitted)
                  (any was_accepted (a ∷ rest)))
                (decide_unsent_some intent a rest w s submitted.compute_type class served)))))

  unattempted_iff :
      (intent : WriteIntent) (w : OwningWorkflow) (s : SiblingGenerations)
      (submitted : PrecommitSubmission Value) (read : List Value) (served : List Bytes)
      → (decide json precommit_digest types_by_vendor class_by_vendor intent [] w s submitted read
            served
          ≡ transmit)
        ↔ IsSendable intent [] w s
            (precommit_digest submitted)
            (compute_class_of types_by_vendor class_by_vendor submitted.compute_type)
            served
  unfolding decide decide_unsent
  unattempted_iff intent w s submitted read served = (
    λ e. record {
      kind = ground arith;
      described = (cmp-eq_iff (precommit_digest submitted) intent.payload_digest).0 (ground arith);
      unattempted = refl;
      awaits = ground arith;
      live = ground arith;
      newest = ground arith;
      alone = ground arith;
      in_service = ground arith;
    },
    λ h.
        let d = (cmp-eq_iff (precommit_digest submitted) intent.payload_digest).1 h.described in
        ground (arith, h.kind, h.awaits, h.live, h.newest, h.alone, h.in_service),
  )

  -- A precommit is sent exactly where its intent is prepared and records the payload that the
  -- submission has, no attempt was made for it, its workflow has not ended, no newer generation
  -- exists and no other one was transmitted, and the gateway serves its class of compute.
  pub decide-transmit_iff :
      (intent : WriteIntent) (attempts : List WriteAttempt) (w : OwningWorkflow)
      (s : SiblingGenerations) (submitted : PrecommitSubmission Value) (read : List Value)
      (served : List Bytes)
      → (decide json precommit_digest types_by_vendor class_by_vendor intent attempts w s submitted
            read served
          ≡ transmit)
        ↔ IsSendable intent attempts w s
            (precommit_digest submitted)
            (compute_class_of types_by_vendor class_by_vendor submitted.compute_type)
            served
  decide-transmit_iff intent [] w s submitted read served =
      unattempted_iff intent w s submitted read served
  decide-transmit_iff intent (a ∷ rest) w s submitted read served = (
    λ e. absurd (attempted intent a rest w s submitted read served e),
    λ h. let q = h.unattempted in cc,
  )
