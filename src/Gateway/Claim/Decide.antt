-- ===== src/Gateway/Claim/Decide.antt =====
-- crates/tig-gateway/src/claim.rs: `decide` and `decide_benchmark`.
use tig_mining_pool_public.Common.{
  ltb, Bool, true, false, not, ◌&&◌, ◌||◌, if◌then◌else◌, Option, none, some, List, [], ◌∷◌, find?,
}
use tig_mining_pool_public.Common.Bytes.{Bytes, same}
use tig_mining_pool_public.Common.Map.{Map}
use tig_mining_pool_public.Workflow.Intent.{
  WriteIntent, precommit, benchmark, outcome_unknown, kind_str, is_kind, is_state, is_claimable,
}
use tig_mining_pool_public.Workflow.Attempt.{WriteAttempt, is_unresolved}
use tig_mining_pool_public.Workflow.Payload.{Json, PrecommitSubmission, BenchmarkSubmission}
use tig_mining_pool_public.Workflow.Reconcile.{reconcile_precommit}
use tig_mining_pool_public.Gateway.Claim.{
  stray_attempt, no_benchmark_id, sibling_generation_transmitted, payload_not_the_recorded_one,
  compute_type_not_served, unknown_outcome_with_no_attempt, unreadable, not_a_precommit, refused,
  superseded_by_newer_generation, already_settled, no_built_payload, workflow_ended, ClaimDecision,
  transmit, already_confirmed, await_confirmation, stop, skip, OwningWorkflow, SiblingGenerations,
  any, every, was_accepted, was_rejected, reconciled, compute_class_of, is_served,
}

abbrev pub is_none_left : List WriteAttempt → Bool
is_none_left [] = true
is_none_left (a ∷ rest) = false

-- Past the reconciliation: nothing is in flight for the intent.
unfoldable pub decide_unsent :
    WriteIntent
    → List WriteAttempt
    → OwningWorkflow
    → SiblingGenerations
    → Bytes
    → Option Bytes
    → List Bytes
    → ClaimDecision
decide_unsent intent attempts workflow siblings compute_type class served_compute =
    if not (is_served class served_compute)
    then stop (compute_type_not_served compute_type class served_compute)
    else (if not (is_none_left attempts)
        then skip refused
        else (if workflow.is_terminal
            then skip (workflow_ended workflow.state)
            else (if is_state intent.state outcome_unknown
                then stop unknown_outcome_with_no_attempt
                else (if ltb intent.generation siblings.newest_generation
                    then skip (superseded_by_newer_generation siblings.newest_generation)
                    else (if siblings.sibling_transmitted
                        then stop (sibling_generation_transmitted intent.generation)
                        else transmit)))))

abbrev pub stray : Option WriteAttempt → WriteIntent → ClaimDecision → ClaimDecision
stray none intent next = next
stray (some a) intent next =
    stop (unreadable (stray_attempt a.attempt_id a.intent_id intent.intent_id))

abbrev pub is_stray : WriteIntent → WriteAttempt → Bool
is_stray intent a = not (same a.intent_id intent.intent_id)

module _ {Value : Type 0} (json : Json Value) (precommit_digest : PrecommitSubmission Value → Bytes)
    (types_by_vendor : Map (List Bytes)) (class_by_vendor : Map Bytes) where
  -- `decide`
  unfoldable pub decide :
      WriteIntent
      → List WriteAttempt
      → OwningWorkflow
      → SiblingGenerations
      → PrecommitSubmission Value
      → List Value
      → List Bytes
      → ClaimDecision
  unfolding decide_unsent reconciled reconcile_precommit compute_class_of
  decide intent attempts workflow siblings submitted confirmed_precommits served_compute =
      if not (is_kind intent.write_kind precommit)
      then skip (not_a_precommit (kind_str intent.write_kind))
      else stray (find? (is_stray intent) attempts) intent (
          if not (same (precommit_digest submitted) intent.payload_digest)
          then stop payload_not_the_recorded_one
          else (if not (is_claimable intent.state)
              then skip already_settled
              else (if any was_accepted attempts || any (λ a. is_unresolved a.outcome) attempts
                  then reconciled (reconcile_precommit json confirmed_precommits submitted)
                      (any was_accepted attempts)
                  else decide_unsent intent attempts workflow siblings submitted.compute_type
                      (compute_class_of types_by_vendor class_by_vendor submitted.compute_type)
                      served_compute)))

module _ (benchmark_digest : BenchmarkSubmission → Bytes) where
  abbrev pub built_for : Bytes → Bytes → Option BenchmarkSubmission → ClaimDecision
  built_for id payload_digest none = skip no_built_payload
  built_for id payload_digest (some submission) =
      if not (same submission.benchmark_id id)
      then skip no_built_payload
      else (if not (same (benchmark_digest submission) payload_digest)
          then stop payload_not_the_recorded_one
          else transmit)

  abbrev pub decide_named :
      WriteIntent
      → List WriteAttempt
      → OwningWorkflow
      → List Bytes
      → Option BenchmarkSubmission
      → Option Bytes
      → ClaimDecision
  decide_named intent attempts owning confirmed submission none = stop (unreadable no_benchmark_id)
  decide_named intent attempts owning confirmed submission (some id) =
      if not (is_claimable intent.state)
      then skip already_settled
      else (if any (λ c. same c id) confirmed
          then already_confirmed id
          else (if not (is_none_left attempts) && every was_rejected attempts
              then skip refused
              else (if any (λ a. is_unresolved a.outcome || was_accepted a) attempts
                  then await_confirmation
                  else (if is_state intent.state outcome_unknown
                      then stop unknown_outcome_with_no_attempt
                      else (if owning.is_terminal
                          then skip (workflow_ended owning.state)
                          else built_for id intent.payload_digest submission)))))

  -- `decide_benchmark`, over the ids of the confirmed benchmarks.
  unfoldable pub decide_benchmark :
      WriteIntent
      → List WriteAttempt
      → OwningWorkflow
      → List Bytes
      → Option BenchmarkSubmission
      → ClaimDecision
  decide_benchmark intent attempts owning confirmed submission =
      if not (is_kind intent.write_kind benchmark)
      then skip (not_a_precommit (kind_str intent.write_kind))
      else decide_named intent attempts owning confirmed submission intent.benchmark_id
