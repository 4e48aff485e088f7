-- ===== src/Workflow/Lifecycle/Calls.antt =====
-- crates/pool-workflow/src/workflow.rs: the calls that create a workflow, confirm what TIG published
-- of it, and end it.
use tig_mining_pool_public.Common.{
  ℕ, Bool, false, not, ◌&&◌, if◌then◌else◌, none, [], ◌∷◌, ◌++◌, Result, ok, err, ◌>>◌,
}
use tig_mining_pool_public.Common.Bytes.{Bytes}
use tig_mining_pool_public.Common.Int.{ℤ}
use tig_mining_pool_public.Gateway.Network.{Network}
use tig_mining_pool_public.Workflow.Lifecycle.{
  Owner, WorkflowState, decided, precommit_confirmed, proof_confirmed, verified, fraudulent, failed,
  expired, Workflow, ConfirmedPrecommit, ConfirmedBenchmark, ConfirmedProof, ConfirmedFraud,
  WorkflowError, unavailable, Fields, Db,
}
use tig_mining_pool_public.Workflow.Lifecycle.Table.{
  is_some, is_valid, find, transition_guarded, commit,
}
use tig_mining_pool_public.Workflow.Lifecycle.Decide.{
  Submitted, submitted_to, reject_member_fault, benchmark_state, submitted_fields, precommit_fields,
  benchmark_fields, proof_fields, verified_fields, fraud_fields, ended_fields,
}

module _ {V : Type 0} where
  module _ (network : Network) (workflow_id : Bytes) where
    module _ (at_revision : ℕ) where
      -- `transition`, with the commit.
      unfoldable pub transition :
          WorkflowState
          → (Workflow V → Result WorkflowError (Fields V))
          → Db V
          → Db V × Result WorkflowError (Workflow V)
      unfolding transition_guarded commit
      transition to decide db =
          commit db (transition_guarded network workflow_id at_revision to false decide db)

      unfoldable pub record_submitted : Submitted → Db V → Db V × Result WorkflowError (Workflow V)
      unfolding transition submitted_fields
      record_submitted which db =
          transition (submitted_to which) (submitted_fields network workflow_id which) db

      unfoldable pub confirm_precommit :
          ConfirmedPrecommit V → Db V → Db V × Result WorkflowError (Workflow V)
      unfolding transition precommit_fields
      confirm_precommit evidence db =
          transition precommit_confirmed (precommit_fields network workflow_id evidence) db

      unfoldable pub confirm_benchmark :
          ConfirmedBenchmark → Db V → Db V × Result WorkflowError (Workflow V)
      unfolding transition benchmark_fields
      confirm_benchmark evidence db =
          transition (benchmark_state evidence.stopped)
            (benchmark_fields network workflow_id evidence) db

      unfoldable pub confirm_proof :
          ConfirmedProof → Db V → Db V × Result WorkflowError (Workflow V)
      unfolding transition proof_fields
      confirm_proof evidence db =
          transition proof_confirmed (proof_fields network workflow_id evidence) db

      unfoldable pub confirm_verified : Bytes → ℤ → Db V → Db V × Result WorkflowError (Workflow V)
      unfolding transition verified_fields
      confirm_verified benchmark_id at_block db =
          transition verified (verified_fields network workflow_id benchmark_id at_block) db

      unfoldable pub confirm_fraud :
          ConfirmedFraud → Db V → Db V × Result WorkflowError (Workflow V)
      unfolding transition fraud_fields
      confirm_fraud evidence db =
          transition fraudulent (fraud_fields network workflow_id evidence) db

      unfoldable pub fail : Bytes → ℤ → Db V → Db V × Result WorkflowError (Workflow V)
      unfolding reject_member_fault transition_guarded ended_fields commit
      fail reason at_block db = commit db (do
        reject_member_fault reason
        transition_guarded network workflow_id at_revision failed false
            (ended_fields network workflow_id failed reason at_block) db)

      unfoldable pub expire_inner :
          Bytes → ℤ → Bool → Db V → Db V × Result WorkflowError (Workflow V)
      unfolding reject_member_fault transition_guarded ended_fields commit
      expire_inner reason at_block require_no_write_in_flight db = commit db (do
        reject_member_fault reason
        transition_guarded network workflow_id at_revision expired require_no_write_in_flight
            (ended_fields network workflow_id expired reason at_block) db)

      unfoldable pub expire : Bytes → ℤ → Db V → Db V × Result WorkflowError (Workflow V)
      unfolding expire_inner
      expire reason at_block db = expire_inner reason at_block false db

  -- The row that `create` asks for, with the column's defaults.
  abbrev pub created : Network → Bytes → Owner → Bytes → ℤ → Workflow V
  created network workflow_id owner owner_id unverified_from_block = record {
    workflow_id = workflow_id;
    network = network;
    state = decided;
    revision = 1;
    owner = owner;
    owner_id = owner_id;
    benchmark_id = none;
    unverified_from_block = unverified_from_block;
    unverified_to_block = none;
    confirmed_track_id = none;
    confirmed_settings = none;
    precommit_confirmed_block = none;
    block_started = none;
    confirmed_num_nonces = none;
    terminal_reason = none;
  }

  unfoldable pub create :
      Network → Bytes → Owner → Bytes → ℤ → Db V → Db V × Result WorkflowError (Workflow V)
  unfolding find is_valid
  create network workflow_id owner owner_id unverified_from_block db =
      let new = created network workflow_id owner owner_id unverified_from_block in
      if is_valid new && not (is_some (find network workflow_id db))
      then (record db { workflows = db.workflows ++ new ∷ [] }, ok new)
      else (db, err unavailable)
