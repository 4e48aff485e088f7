-- ===== src/Workflow/Lifecycle/Decide.antt =====
-- crates/pool-workflow/src/workflow.rs: what a transition sets, decided from the row that is
-- locked.
use tig_mining_pool_public.Common.{
  Bool, true, false, ◌||◌, if◌then◌else◌, Option, none, some, List, [], ◌∷◌, Result, ok, ◌>>◌,
  guard, fail_if,
}
use tig_mining_pool_public.Common.Bytes.{Bytes, codes}
use tig_mining_pool_public.Common.Int.{ℤ}
use tig_mining_pool_public.Common.Text.{to_ascii_lowercase, contains_text}
use tig_mining_pool_public.Gateway.Network.{Network}
use tig_mining_pool_public.Workflow.Attempt.{names}
use tig_mining_pool_public.Workflow.Lifecycle.{
  WorkflowState, decided, precommit_submitted, precommit_confirmed, benchmark_submitted,
  benchmark_confirmed, proof_submitted, proof_confirmed, verified, stopped, as_str, is_terminal,
  is_state, Workflow, ConfirmedPrecommit, ConfirmedBenchmark, ConfirmedProof, ConfirmedFraud,
  WorkflowError, benchmark_mismatch, not_allowed, member_fault_not_available,
  terminal_state_contradicted, Fields,
}

pub data Submitted : Type 0 where
  precommit benchmark proof : Submitted

abbrev pub submitted_from : Submitted → WorkflowState
submitted_from precommit = decided
submitted_from benchmark = precommit_confirmed
submitted_from proof = benchmark_confirmed

abbrev pub submitted_to : Submitted → WorkflowState
submitted_to precommit = precommit_submitted
submitted_to benchmark = benchmark_submitted
submitted_to proof = proof_submitted

-- The loop over the markers.
unfoldable pub has_marker : Bytes → List Bytes → Bool
unfolding contains_text
has_marker lowered [] = false
has_marker lowered (marker ∷ rest) = contains_text marker lowered || has_marker lowered rest

unfoldable pub reject_member_fault : Bytes → Result {0, 0} WorkflowError Unit
unfolding has_marker to_ascii_lowercase
reject_member_fault reason =
    fail_if
      (has_marker (to_ascii_lowercase reason)
        (codes "member" ∷ codes "chargeable" ∷ codes "slash" ∷ []))
      (member_fault_not_available reason)

abbrev pub stopped_reason : Bytes
stopped_reason = codes "TIG stopped the benchmark; §7 sends no proof"

abbrev pub fraud_reason : Bytes
fraud_reason = codes "TIG confirmed a fraud entry"

abbrev pub benchmark_state : Bool → WorkflowState
benchmark_state true = stopped
benchmark_state false = benchmark_confirmed

module _ {V : Type 0} where
  -- `Fields::default()`
  abbrev pub unchanged : Fields V
  unchanged = record {
    benchmark_id = none;
    block_started = none;
    confirmed_num_nonces = none;
    confirmed = none;
    unverified_to_block = none;
    terminal_reason = none;
  }

  abbrev pub closing : ℤ → Option Bytes → Fields V
  closing block reason = record unchanged {
    unverified_to_block = some block;
    terminal_reason = reason;
  }

  unfoldable pub expect_benchmark :
      Network → Bytes → Workflow V → Bytes → Result {0, 0} WorkflowError Unit
  expect_benchmark network workflow_id current offered =
      guard (names offered current.benchmark_id)
        (benchmark_mismatch network workflow_id current.benchmark_id offered)

  module _ (network : Network) (workflow_id : Bytes) where
    -- What the checks refuse with.
    abbrev pub contradicted : Workflow V → WorkflowError
    contradicted current = terminal_state_contradicted network workflow_id (as_str current.state)

    abbrev pub not_from : Workflow V → WorkflowState → WorkflowError
    not_from current to = not_allowed network workflow_id (as_str current.state) (as_str to)

    -- The closures that decide a transition from the row under its lock.
    unfoldable pub submitted_fields : Submitted → Workflow V → Result WorkflowError (Fields V)
    submitted_fields which current = do
      guard (is_state current.state (submitted_from which)) (not_from current (submitted_to which))
      ok unchanged

    unfoldable pub precommit_fields :
        ConfirmedPrecommit V → Workflow V → Result WorkflowError (Fields V)
    precommit_fields evidence current = do
      fail_if (is_terminal current.state) (contradicted current)
      guard (is_state current.state decided || is_state current.state precommit_submitted)
          (not_from current precommit_confirmed)
      ok (record unchanged {
        benchmark_id = some evidence.benchmark_id;
        block_started = some evidence.block_started;
        confirmed_num_nonces = evidence.num_nonces;
        confirmed = some (evidence.track_id, evidence.settings, evidence.block_confirmed);
      })

    unfoldable pub benchmark_fields :
        ConfirmedBenchmark → Workflow V → Result WorkflowError (Fields V)
    unfolding expect_benchmark
    benchmark_fields evidence current = do
      expect_benchmark network workflow_id current evidence.benchmark_id
      fail_if (is_terminal current.state) (contradicted current)
      guard
          (is_state current.state precommit_confirmed || is_state current.state benchmark_submitted)
          (not_from current (benchmark_state evidence.stopped))
      ok (
          if evidence.stopped
          then closing evidence.block_confirmed (some stopped_reason)
          else unchanged)

    unfoldable pub proof_fields : ConfirmedProof → Workflow V → Result WorkflowError (Fields V)
    unfolding expect_benchmark
    proof_fields evidence current = do
      expect_benchmark network workflow_id current evidence.benchmark_id
      fail_if (is_terminal current.state) (contradicted current)
      guard (is_state current.state benchmark_confirmed || is_state current.state proof_submitted)
          (not_from current proof_confirmed)
      ok unchanged

    unfoldable pub verified_fields : Bytes → ℤ → Workflow V → Result WorkflowError (Fields V)
    unfolding expect_benchmark
    verified_fields benchmark_id at_block current = do
      expect_benchmark network workflow_id current benchmark_id
      fail_if (is_terminal current.state) (contradicted current)
      guard (is_state current.state proof_confirmed) (not_from current verified)
      ok (closing at_block none)

    unfoldable pub fraud_fields : ConfirmedFraud → Workflow V → Result WorkflowError (Fields V)
    unfolding expect_benchmark
    fraud_fields evidence current = do
      expect_benchmark network workflow_id current evidence.benchmark_id
      fail_if (is_terminal current.state) (contradicted current)
      ok (closing evidence.block_confirmed (some fraud_reason))

    -- Of `fail` and of `expire_inner`.
    unfoldable pub ended_fields :
        WorkflowState → Bytes → ℤ → Workflow V → Result WorkflowError (Fields V)
    ended_fields to reason at_block current = do
      fail_if (is_terminal current.state) (not_from current to)
      ok (closing at_block (some reason))
