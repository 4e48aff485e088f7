-- ===== src/Workflow/Attempt.antt =====
-- crates/pool-workflow/src/attempt.rs: the ledger of write attempts, with the unique indexes of
-- migrations/0004_tig_write_attempt.sql. An error of the database is `unavailable`, without the
-- driver's text; the identifier that it draws for a new row is an argument.
pub mod Begin
pub mod Resolve
pub mod Queries
pub mod Steps
pub mod Rows
pub mod Lane
pub mod Holder
pub mod Emptied
pub mod Reopened
pub mod Settled
use tig_mining_pool_public.Common.{
  ℕ, ◌+◌, ◌-◌, ◌^◌, compare, Ordering, Bool, true, false, not, ◌&&◌, ◌||◌, ltb, leb, ◌==◌,
  if◌then◌else◌, Option, none, some, List, [], ◌∷◌, ◌++◌, map, keep, find?, head?, length, Result,
  ok, err, ◌>>=◌, ◌>>◌, guard, ok_or, map_err,
}
use tig_mining_pool_public.Common.Bytes.{Bytes, codes, same}
use tig_mining_pool_public.Common.Int.{ℤ}
use tig_mining_pool_public.Common.Max.{max?}
use tig_mining_pool_public.Common.Sort.{sort_by}
use tig_mining_pool_public.Gateway.Network.{Network, is_same}
use tig_mining_pool_public.Workflow.Lease.{Lease, LeaseError, require_fence}
use tig_mining_pool_public.Workflow.Lease.{Store}
use tig_mining_pool_public.Workflow.Intent.{
  WriteKind, precommit, benchmark, proof, IntentState, prepared, outcome_unknown, is_state,
  WriteIntent, IntentRow,
}

pub data AttemptOutcome : Type 0 where
  accepted rejected ambiguous : AttemptOutcome

-- A row of pool.tig_write_attempt. Its outcome is one of three words, or NULL.
pub record AttemptRow : Type 0 where
  pub attempt_id : Bytes
  pub intent_id : Bytes
  pub attempt_no : ℕ
  pub network : Network
  pub write_kind : WriteKind
  pub benchmark_id : Option Bytes
  pub started_at : ℕ
  pub outcome : Option AttemptOutcome
  pub http_status : Option ℤ
  pub detail : Option Bytes
  pub reconciled : Bool

-- The database, with its clock among the leases.
pub record Ledger : Type 0 where
  pub leases : Store
  pub intents : List IntentRow
  pub attempts : List AttemptRow

abbrev pub as_str : AttemptOutcome → Bytes
as_str accepted = codes "ACCEPTED"
as_str rejected = codes "REJECTED"
as_str ambiguous = codes "AMBIGUOUS"

pub record WriteAttempt : Type 0 where
  pub attempt_id : Bytes
  pub intent_id : Bytes
  pub attempt_no : ℕ
  pub outcome : Option AttemptOutcome
  pub http_status : Option ℤ
  pub reconciled : Bool
  pub age_secs : ℕ

pub data AttemptError : Type 0 where
  unavailable : AttemptError
  precommit_lane_occupied : Network → AttemptError
  benchmark_write_in_flight : Bytes → AttemptError
  already_resolved : Bytes → AttemptError
  fence_lost : LeaseError → AttemptError
  not_settled : Bytes → AttemptError
  not_ambiguous : Bytes → AttemptError

-- `is_unresolved`, of the column that the method reads.
abbrev pub is_unresolved : Option AttemptOutcome → Bool
is_unresolved none = true
is_unresolved (some accepted) = false
is_unresolved (some rejected) = false
is_unresolved (some ambiguous) = true

abbrev pub has_response : WriteAttempt → Bool
has_response a = elim a.outcome [ none ↦ false | some outcome ↦ true ]

-- `row_to_attempt`
abbrev pub row_to_attempt : ℕ → AttemptRow → WriteAttempt
row_to_attempt now row = record {
  attempt_id = row.attempt_id;
  intent_id = row.intent_id;
  attempt_no = row.attempt_no;
  outcome = row.outcome;
  http_status = row.http_status;
  reconciled = row.reconciled;
  age_secs = now - row.started_at;
}

abbrev pub is_precommit : WriteKind → Bool
is_precommit precommit = true
is_precommit benchmark = false
is_precommit proof = false

-- In the index of the unresolved precommits of the network.
abbrev pub in_lane : Network → AttemptRow → Bool
in_lane network row =
    is_same row.network network && is_precommit row.write_kind && is_unresolved row.outcome

abbrev pub names : Bytes → Option Bytes → Bool
names id none = false
names id (some other) = same other id

-- In the index of the unresolved writes for the benchmark.
abbrev pub in_flight : Network → Bytes → AttemptRow → Bool
in_flight network id row =
    is_same row.network network && names id row.benchmark_id && is_unresolved row.outcome

abbrev pub is_null : Option AttemptOutcome → Bool
is_null none = true
is_null (some outcome) = false

abbrev pub is_ambiguous : Option AttemptOutcome → Bool
is_ambiguous none = false
is_ambiguous (some accepted) = false
is_ambiguous (some rejected) = false
is_ambiguous (some ambiguous) = true
