-- ===== src/Workflow/Lifecycle.antt =====
-- crates/pool-workflow/src/workflow.rs: the record of a piece of work and the states that it goes
-- through. A text column that a CHECK constraint holds to a few words is the type of these words; a
-- JSON value is of any type `V`.
pub mod Table
pub mod Decide
pub mod Calls
pub mod Expiry
pub mod Steps
pub mod Moves
pub mod Allowed
pub mod Turns
pub mod Kept
pub mod Sound
pub mod Course
pub mod Final
pub mod Faultless
pub mod Sole
pub mod Swept
pub mod Granted
use tig_mining_pool_public.Common.{ℕ, Bool, true, false, not, ◌&&◌, List, [], ◌∷◌, Option}
use tig_mining_pool_public.Common.Bytes.{Bytes, codes}
use tig_mining_pool_public.Common.Int.{ℤ}
use tig_mining_pool_public.Gateway.Network.{Network}
use tig_mining_pool_public.Workflow.Attempt.{Ledger}

pub data Owner : Type 0 where
  pool_bootstrap member : Owner

abbrev pub pool_bootstrap_owner : Bytes
pool_bootstrap_owner = codes "pool-bootstrap"

pub data WorkflowState : Type 0 where
  decided precommit_submitted precommit_confirmed : WorkflowState
  benchmark_submitted benchmark_confirmed : WorkflowState
  proof_submitted proof_confirmed : WorkflowState
  verified stopped fraudulent failed expired : WorkflowState

unfoldable pub as_str : WorkflowState → Bytes
as_str decided = codes "DECIDED"
as_str precommit_submitted = codes "PRECOMMIT_SUBMITTED"
as_str precommit_confirmed = codes "PRECOMMIT_CONFIRMED"
as_str benchmark_submitted = codes "BENCHMARK_SUBMITTED"
as_str benchmark_confirmed = codes "BENCHMARK_CONFIRMED"
as_str proof_submitted = codes "PROOF_SUBMITTED"
as_str proof_confirmed = codes "PROOF_CONFIRMED"
as_str verified = codes "VERIFIED"
as_str stopped = codes "STOPPED"
as_str fraudulent = codes "FRAUDULENT"
as_str expired = codes "EXPIRED"
as_str failed = codes "FAILED"

abbrev pub is_terminal : WorkflowState → Bool
is_terminal stopped = true
is_terminal fraudulent = true
is_terminal expired = true
is_terminal failed = true
is_terminal decided = false
is_terminal precommit_submitted = false
is_terminal precommit_confirmed = false
is_terminal benchmark_submitted = false
is_terminal benchmark_confirmed = false
is_terminal proof_submitted = false
is_terminal proof_confirmed = false
is_terminal verified = false

abbrev pub is_proven : WorkflowState → Bool
is_proven proof_confirmed = true
is_proven verified = true
is_proven _ = false

unfoldable pub is_unfinished_local_work : WorkflowState → Bool
is_unfinished_local_work state = not (is_terminal state) && not (is_proven state)

-- `==` of states.
abbrev pub is_state : WorkflowState → WorkflowState → Bool
is_state decided decided = true
is_state precommit_submitted precommit_submitted = true
is_state precommit_confirmed precommit_confirmed = true
is_state benchmark_submitted benchmark_submitted = true
is_state benchmark_confirmed benchmark_confirmed = true
is_state proof_submitted proof_submitted = true
is_state proof_confirmed proof_confirmed = true
is_state verified verified = true
is_state stopped stopped = true
is_state fraudulent fraudulent = true
is_state failed failed = true
is_state expired expired = true
is_state _ _ = false

pub record Workflow (V : Type 0) : Type 0 where
  pub workflow_id : Bytes
  pub network : Network
  pub state : WorkflowState
  pub revision : ℕ
  pub owner : Owner
  pub owner_id : Bytes
  pub benchmark_id : Option Bytes
  pub unverified_from_block : ℤ
  pub unverified_to_block : Option ℤ
  pub confirmed_track_id : Option Bytes
  pub confirmed_settings : Option V
  pub precommit_confirmed_block : Option ℤ
  pub block_started : Option ℤ
  pub confirmed_num_nonces : Option ℤ
  pub terminal_reason : Option Bytes

pub record ConfirmedPrecommit (V : Type 0) : Type 0 where
  pub benchmark_id : Bytes
  pub num_nonces : Option ℤ
  pub num_bundles : Option ℤ
  pub block_confirmed : ℤ
  pub block_started : ℤ
  pub track_id : Bytes
  pub settings : V

pub record ConfirmedBenchmark : Type 0 where
  pub benchmark_id : Bytes
  pub block_confirmed : ℤ
  pub stopped : Bool

pub record ConfirmedProof : Type 0 where
  pub benchmark_id : Bytes
  pub block_confirmed : ℤ

pub record ConfirmedFraud : Type 0 where
  pub benchmark_id : Bytes
  pub block_confirmed : ℤ

pub data WorkflowError : Type 0 where
  unavailable : WorkflowError
  write_in_flight : Network → Bytes → WorkflowError
  not_found : Network → Bytes → WorkflowError
  stale_revision : Network → Bytes → (expects found : ℕ) → WorkflowError
  benchmark_mismatch : Network → Bytes → (owned : Option Bytes) (offered : Bytes) → WorkflowError
  not_allowed : Network → Bytes → (from to : Bytes) → WorkflowError
  member_fault_not_available : Bytes → WorkflowError
  terminal_state_contradicted : Network → Bytes → (state : Bytes) → WorkflowError
  benchmark_already_claimed : Network → Bytes → WorkflowError

-- The fields that a transition sets. `none` leaves the stored value alone.
pub record Fields (V : Type 0) : Type 0 where
  pub benchmark_id : Option Bytes
  pub block_started : Option ℤ
  pub confirmed_num_nonces : Option ℤ
  pub confirmed : Option (Bytes × V × ℤ)
  pub unverified_to_block : Option ℤ
  pub terminal_reason : Option Bytes

-- The columns of pool.precommit_decision that workflow.rs reads.
pub record PrecommitDecision : Type 0 where
  pub network : Network
  pub workflow_id : Bytes
  pub generation : ℕ
  pub anchor_height : ℤ

-- The database: the write attempts with their intents, the workflows and the decisions.
pub record Db (V : Type 0) : Type 0 where
  pub ledger : Ledger
  pub workflows : List (Workflow V)
  pub decisions : List PrecommitDecision
