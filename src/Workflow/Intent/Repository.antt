-- ===== src/Workflow/Intent/Repository.antt =====
-- crates/pool-workflow/src/intent.rs: the repository of write intents. The rules that other tables
-- have for a new row are a parameter, and so are the identifier and the time that it gets.
use tig_mining_pool_public.Common.{
  ℕ, ◌==◌, leb, compare, Ordering, Bool, true, false, not, ◌&&◌, ◌||◌, if◌then◌else◌, Option, none,
  some, List, ◌∷◌, map, keep, find?, Result, ok, err,
}
use tig_mining_pool_public.Common.Bytes.{Bytes, same, cmp, and_then}
use tig_mining_pool_public.Common.Sort.{sort_by}
use tig_mining_pool_public.Gateway.Network.{Network, is_same}
use tig_mining_pool_public.Workflow.Intent.{
  WriteKind, IntentState, prepared, confirmed, rejected, WriteIntent, IntentRow, is_benchmark_bound,
  is_kind, is_state, is_claimable,
}

pub record NewIntent : Type 0 where
  pub network : Network
  pub workflow_id : Bytes
  pub write_kind : WriteKind
  pub generation : ℕ
  pub benchmark_id : Option Bytes
  pub payload_digest : Bytes
  pub payload_artifact_id : Option Bytes
  pub trace_id : Option Bytes

pub data IntentError : Type 0 where
  unavailable : IntentError
  payload_conflict : Network → Bytes → WriteKind → ℕ → IntentError
  must_name_benchmark must_not_name_benchmark : WriteKind → IntentError
  not_found : Bytes → IntentError
  already_settled : Bytes → IntentState → IntentState → IntentError

pub data SettledOutcome : Type 0 where
  is_confirmed : Bytes → SettledOutcome
  is_rejected : SettledOutcome

abbrev pub as_state : SettledOutcome → IntentState
as_state (is_confirmed benchmark_id) = confirmed
as_state is_rejected = rejected

abbrev pub same_option : Option Bytes → Option Bytes → Bool
same_option none none = true
same_option none (some b) = false
same_option (some a) none = false
same_option (some a) (some b) = same a b

abbrev pub has_key : Network → Bytes → WriteKind → ℕ → IntentRow → Bool
has_key network workflow_id write_kind generation row =
    is_same row.intent.network network
    && same row.intent.workflow_id workflow_id
    && is_kind row.intent.write_kind write_kind
    && row.intent.generation == generation

abbrev pub intent_of : Option IntentRow → Option WriteIntent
intent_of none = none
intent_of (some row) = some row.intent

-- `find`
unfoldable pub find : Network → Bytes → WriteKind → ℕ → List IntentRow → Option WriteIntent
find network workflow_id write_kind generation rows =
    intent_of (find? (has_key network workflow_id write_kind generation) rows)

abbrev pub recorded : Bytes → NewIntent → WriteIntent
recorded intent_id new = record {
  intent_id = intent_id;
  network = new.network;
  workflow_id = new.workflow_id;
  write_kind = new.write_kind;
  generation = new.generation;
  benchmark_id = new.benchmark_id;
  payload_digest = new.payload_digest;
  payload_artifact_id = new.payload_artifact_id;
  trace_id = new.trace_id;
  state = prepared;
}

abbrev pub differs : WriteIntent → NewIntent → Bool
differs existing new =
    not (same existing.payload_digest new.payload_digest)
    || not (same_option existing.benchmark_id new.benchmark_id)
    || not (same_option existing.payload_artifact_id new.payload_artifact_id)

abbrev pub has_id : Bytes → IntentRow → Bool
has_id intent_id row = same row.intent.intent_id intent_id

abbrev pub is_free : Option IntentRow → Bool
is_free none = true
is_free (some row) = false

-- The INSERT, and the row that is there where it does nothing.
abbrev pub insert_or_keep :
    Bytes
    → ℕ
    → NewIntent
    → Option WriteIntent
    → List IntentRow
    → List IntentRow × Result IntentError WriteIntent
insert_or_keep intent_id now new none rows =
    if is_free (find? (has_id intent_id) rows)
    then (
      record { intent = recorded intent_id new; created_at = now } ∷ rows,
      ok (recorded intent_id new),
    )
    else (rows, err unavailable)
insert_or_keep intent_id now new (some existing) rows =
    if differs existing new
    then (rows, err (payload_conflict new.network new.workflow_id new.write_kind new.generation))
    else (rows, ok existing)

-- The tests before the statement.
abbrev pub bind : Bool → WriteKind → Option Bytes → Result {0, 0} IntentError Unit
bind true kind none = err (must_name_benchmark kind)
bind true kind (some id) = ok tt
bind false kind none = ok tt
bind false kind (some id) = err (must_not_name_benchmark kind)

abbrev pub when_bound :
    Result {0, 0} IntentError Unit
    → List IntentRow
    → List IntentRow × Result IntentError WriteIntent
    → List IntentRow × Result IntentError WriteIntent
when_bound (err e) rows done = (rows, err e)
when_bound (ok _) rows done = done

-- `create`
unfoldable pub create :
    (NewIntent → Bool)
    → Bytes
    → ℕ
    → NewIntent
    → List IntentRow
    → List IntentRow × Result IntentError WriteIntent
unfolding find
create permits intent_id now new rows =
    when_bound (bind (is_benchmark_bound new.write_kind) new.write_kind new.benchmark_id) rows (
      if permits new && leb 1 new.generation
      then insert_or_keep intent_id now new
          (find new.network new.workflow_id new.write_kind new.generation rows) rows
      else (rows, err unavailable))

-- `ORDER BY created_at, intent_id`
abbrev pub by_age : IntentRow → IntentRow → Ordering
by_age a b =
    and_then (compare a.created_at b.created_at) (cmp a.intent.intent_id b.intent.intent_id)

-- `claimable`
unfoldable pub claimable : Network → WriteKind → List IntentRow → List WriteIntent
claimable network write_kind rows =
    map (λ r. r.intent)
      (sort_by by_age (
        keep
          (λ r.
            is_same r.intent.network network
            && is_kind r.intent.write_kind write_kind
            && is_claimable r.intent.state)
          rows))

abbrev pub in_state : IntentState → IntentRow → IntentRow
in_state state row = record row { intent = record row.intent { state = state } }

abbrev pub can_settle : Bytes → IntentRow → Bool
can_settle intent_id row = has_id intent_id row && is_claimable row.intent.state

abbrev pub settle_recorded : Bytes → IntentState → Option IntentRow → Result IntentError WriteIntent
settle_recorded intent_id state none = err (not_found intent_id)
settle_recorded intent_id state (some row) =
    if is_state row.intent.state state
    then ok row.intent
    else err (already_settled intent_id row.intent.state state)

abbrev pub settle_row :
    Bytes
    → IntentState
    → Option IntentRow
    → List IntentRow
    → List IntentRow × Result IntentError WriteIntent
settle_row intent_id state (some row) rows = (
  map (λ r. if can_settle intent_id r then in_state state r else r) rows,
  ok (in_state state row).intent,
)
settle_row intent_id state none rows =
    (rows, settle_recorded intent_id state (find? (has_id intent_id) rows))

-- `settle`
unfoldable pub settle :
    Bytes → SettledOutcome → List IntentRow → List IntentRow × Result IntentError WriteIntent
settle intent_id outcome rows =
    settle_row intent_id (as_state outcome) (find? (can_settle intent_id) rows) rows
