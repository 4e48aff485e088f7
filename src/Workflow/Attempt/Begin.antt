-- ===== src/Workflow/Attempt/Begin.antt =====
-- crates/pool-workflow/src/attempt.rs: an attempt is recorded before the request is sent.
use tig_mining_pool_public.Common.{
  ℕ, ◌+◌, ◌-◌, ◌^◌, compare, Bool, true, false, not, ◌&&◌, leb, Option, none, some, List, ◌∷◌, map,
  keep, find?, Result, ok, err, ◌>>=◌, ◌>>◌, guard, ok_or,
}
use tig_mining_pool_public.Common.Bytes.{Bytes, same}
use tig_mining_pool_public.Common.Max.{max?}
use tig_mining_pool_public.Gateway.Network.{Network}
use tig_mining_pool_public.Workflow.Lease.{Lease, LeaseError, require_fence}
use tig_mining_pool_public.Workflow.Intent.{IntentRow, WriteIntent}
use tig_mining_pool_public.Workflow.Attempt.{
  AttemptRow, Ledger, WriteAttempt, AttemptError, unavailable, precommit_lane_occupied,
  benchmark_write_in_flight, fence_lost, row_to_attempt, is_precommit, in_lane, in_flight,
}

abbrev pub any_row : (AttemptRow → Bool) → List AttemptRow → Bool
any_row p rows = elim (find? p rows) [ none ↦ false | some row ↦ true ]

abbrev pub is_taken : Bytes → AttemptRow → Bool
is_taken attempt_id row = same row.attempt_id attempt_id

abbrev pub of_intent : Bytes → AttemptRow → Bool
of_intent intent_id row = same row.intent_id intent_id

-- `COALESCE(MAX(attempt_no), 0)`
abbrev pub number : Option ℕ → ℕ
number none = 0
number (some n) = n

abbrev pub last_no : Bytes → List AttemptRow → ℕ
last_no intent_id rows =
    number (max? compare (map (λ r. r.attempt_no) (keep (of_intent intent_id) rows)))

-- The row as the trigger fills it.
abbrev pub new_row : Bytes → ℕ → ℕ → WriteIntent → AttemptRow
new_row attempt_id attempt_no now intent = record {
  attempt_id = attempt_id;
  intent_id = intent.intent_id;
  attempt_no = attempt_no;
  network = intent.network;
  write_kind = intent.write_kind;
  benchmark_id = intent.benchmark_id;
  started_at = now;
  outcome = none;
  http_status = none;
  detail = none;
  reconciled = false;
}

abbrev pub i32_max : ℕ
i32_max = 2 ^ 31 - 1

abbrev pub free_for : Network → List AttemptRow → Option Bytes → Result {0, 0} AttemptError Unit
free_for network rows none = ok tt
free_for network rows (some id) =
    guard (not (any_row (in_flight network id) rows)) (benchmark_write_in_flight id)

-- The row that the INSERT of `begin` adds, past the constraints in the order of their indexes.
abbrev pub inserted_for : Bytes → Ledger → WriteIntent → Result AttemptError AttemptRow
inserted_for attempt_id l intent = do
  let n = last_no intent.intent_id l.attempts + 1
  guard (leb n i32_max && not (any_row (is_taken attempt_id) l.attempts)) unavailable
  guard (not (is_precommit intent.write_kind && any_row (in_lane intent.network) l.attempts))
      (precommit_lane_occupied intent.network)
  free_for intent.network l.attempts intent.benchmark_id
  ok (new_row attempt_id n l.leases.now intent)

abbrev pub has_intent_id : Bytes → IntentRow → Bool
has_intent_id intent_id row = same row.intent.intent_id intent_id

unfoldable pub inserted : Bytes → Bytes → Ledger → Result AttemptError AttemptRow
inserted attempt_id intent_id l = do
  row ← ok_or (find? (has_intent_id intent_id) l.intents) unavailable
  inserted_for attempt_id l row.intent

abbrev pub record_attempt :
    Ledger → Result AttemptError AttemptRow → Ledger × Result AttemptError WriteAttempt
record_attempt l (err e) = (l, err e)
record_attempt l (ok row) =
    (record l { attempts = row ∷ l.attempts }, ok (row_to_attempt l.leases.now row))

-- `begin`
unfoldable pub begin : Bytes → Bytes → Ledger → Ledger × Result AttemptError WriteAttempt
unfolding inserted
begin attempt_id intent_id l = record_attempt l (inserted attempt_id intent_id l)

abbrev pub fenced :
    Bytes
    → Bytes
    → Result {0, 0} LeaseError Unit
    → Ledger
    → Ledger × Result AttemptError WriteAttempt
unfolding begin
fenced attempt_id intent_id (err e) l = (l, err (fence_lost e))
fenced attempt_id intent_id (ok _) l = begin attempt_id intent_id l

-- `begin_fenced`
unfoldable pub begin_fenced :
    Bytes → Bytes → Lease → Ledger → Ledger × Result AttemptError WriteAttempt
unfolding begin
begin_fenced attempt_id intent_id lease l =
    fenced attempt_id intent_id (require_fence lease l.leases) l
