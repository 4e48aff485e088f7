-- ===== src/Workflow/Lifecycle/Expiry.antt =====
-- crates/pool-workflow/src/workflow.rs: `expire_if_due` and what is listed for it.
use tig_mining_pool_public.Common.{
  compare, Ordering, Bool, true, false, ◌&&◌, if◌then◌else◌, Option, none, some, List, keep, head?,
  Result, ok, err,
}
use tig_mining_pool_public.Common.Bytes.{Bytes, codes, cmp, same}
use tig_mining_pool_public.Common.Int.{ℤ}
use tig_mining_pool_public.Common.Map.{or_default}
use tig_mining_pool_public.Common.Sort.{sort_by}
use tig_mining_pool_public.Gateway.Network.{Network, is_same}
use tig_mining_pool_public.Workflow.Deadlines.{Guardrails, Standing, standing_at}
use tig_mining_pool_public.Workflow.Lifecycle.{
  WorkflowState, is_unfinished_local_work, is_state, Workflow, PrecommitDecision, WorkflowError,
  not_found, write_in_flight, Db,
}
use tig_mining_pool_public.Workflow.Lifecycle.Table.{is_some, find}
use tig_mining_pool_public.Workflow.Lifecycle.Calls.{expire_inner}

abbrev pub expiry_reason_unconfirmed : Bytes
expiry_reason_unconfirmed = codes "workflow_age_120_without_confirmation"

abbrev pub expiry_reason_no_precommit : Bytes
expiry_reason_no_precommit = codes "workflow_expired_without_precommit"

abbrev pub by_generation : PrecommitDecision → PrecommitDecision → Ordering
by_generation a b = compare b.generation a.generation

abbrev pub is_expired : Standing → Bool
is_expired Standing.expired = true
is_expired Standing.assignable = false
is_expired Standing.running_out = false
is_expired Standing.in_proof_reserve = false

module _ {V : Type 0} where
  unfoldable pub latest_decision_anchor : Network → Bytes → Db V → Option ℤ
  latest_decision_anchor network workflow_id db =
      elim (head? (
        sort_by by_generation
          (keep (λ d. is_same d.network network && same d.workflow_id workflow_id) db.decisions))) [
            | none ↦ none
            | some d ↦ some d.anchor_height
          ]

  abbrev pub from_block : Network → Bytes → Workflow V → Db V → ℤ
  from_block network workflow_id current db =
      or_default
        (or_default current.unverified_from_block (latest_decision_anchor network workflow_id db))
        current.block_started

  abbrev pub reason_code : Workflow V → Bytes
  reason_code current =
      if is_some current.confirmed_track_id
      then expiry_reason_unconfirmed
      else expiry_reason_no_precommit

  -- What the caller makes of the answer of the guarded expiry.
  unfoldable pub expiry_answer :
      Db V × Result WorkflowError (Workflow V) → Db V × Result WorkflowError (Option (Workflow V))
  expiry_answer (db, ok w) = (db, ok (some w))
  expiry_answer (db, err (write_in_flight network workflow_id)) = (db, ok none)
  expiry_answer (db, err why) = (db, err why)

  unfoldable pub is_due : Guardrails → Network → Bytes → ℤ → Workflow V → Db V → Bool
  unfolding is_unfinished_local_work latest_decision_anchor standing_at
  is_due guardrails network workflow_id current_block current db =
      is_unfinished_local_work current.state
      && is_expired
          (standing_at guardrails (from_block network workflow_id current db)
            current_block).standing

  unfoldable pub expire_found :
      Guardrails
      → Network
      → Bytes
      → ℤ
      → Option (Workflow V)
      → Db V
      → Db V × Result WorkflowError (Option (Workflow V))
  unfolding is_due expire_inner expiry_answer
  expire_found guardrails network workflow_id current_block none db =
      (db, err (not_found network workflow_id))
  expire_found guardrails network workflow_id current_block (some current) db =
      if is_due guardrails network workflow_id current_block current db
      then expiry_answer (
          expire_inner network workflow_id current.revision (reason_code current) current_block true
            db)
      else (db, ok none)

  unfoldable pub expire_if_due :
      Guardrails → Network → Bytes → ℤ → Db V → Db V × Result WorkflowError (Option (Workflow V))
  unfolding find expire_found
  expire_if_due guardrails network workflow_id current_block db =
      expire_found guardrails network workflow_id current_block (find network workflow_id db) db

  abbrev pub by_id : Workflow V → Workflow V → Ordering
  by_id a b = cmp a.workflow_id b.workflow_id

  unfoldable pub in_states : Network → (WorkflowState → Bool) → Db V → List (Workflow V)
  in_states network p db =
      sort_by by_id (keep (λ w. is_same w.network network && p w.state) db.workflows)

  unfoldable pub in_state : Network → WorkflowState → Db V → List (Workflow V)
  unfolding in_states
  in_state network state db = in_states network (is_state state) db

  unfoldable pub unfinished : Network → Db V → List (Workflow V)
  unfolding in_states is_unfinished_local_work
  unfinished network db = in_states network is_unfinished_local_work db
