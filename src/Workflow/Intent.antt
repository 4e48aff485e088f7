-- ===== src/Workflow/Intent.antt =====
-- crates/pool-workflow/src/intent.rs: write intents and their states. A text column that a CHECK
-- constraint holds to a few words is the type of these words.
pub mod Repository
pub mod Recorded
pub mod Settled
use tig_mining_pool_public.Common.{ℕ, Bool, true, false, if◌then◌else◌, Option, none, some}
use tig_mining_pool_public.Common.Bytes.{Bytes, codes, same}
use tig_mining_pool_public.Gateway.Network.{Network}

pub data WriteKind : Type 0 where
  precommit benchmark proof : WriteKind

pub data IntentState : Type 0 where
  prepared outcome_unknown confirmed rejected : IntentState

-- A trace id is its text, as the column has it.
pub record WriteIntent : Type 0 where
  pub intent_id : Bytes
  pub network : Network
  pub workflow_id : Bytes
  pub write_kind : WriteKind
  pub generation : ℕ
  pub benchmark_id : Option Bytes
  pub payload_digest : Bytes
  pub payload_artifact_id : Option Bytes
  pub trace_id : Option Bytes
  pub state : IntentState

-- A row of pool.tig_write_intent.
pub record IntentRow : Type 0 where
  pub intent : WriteIntent
  pub created_at : ℕ

-- `WriteKind::as_str`
abbrev pub kind_str : WriteKind → Bytes
kind_str precommit = codes "precommit"
kind_str benchmark = codes "benchmark"
kind_str proof = codes "proof"

abbrev pub is_benchmark_bound : WriteKind → Bool
is_benchmark_bound precommit = false
is_benchmark_bound benchmark = true
is_benchmark_bound proof = true

-- `WriteKind::parse`
unfoldable pub parse_kind : Bytes → Option WriteKind
parse_kind text =
    if same text (codes "precommit")
    then some precommit
    else (if same text (codes "benchmark")
        then some benchmark
        else (if same text (codes "proof") then some proof else none))

-- `IntentState::as_str`
abbrev pub state_str : IntentState → Bytes
state_str prepared = codes "PREPARED"
state_str outcome_unknown = codes "OUTCOME_UNKNOWN"
state_str confirmed = codes "CONFIRMED"
state_str rejected = codes "REJECTED"

-- `IntentState::parse`
unfoldable pub parse_state : Bytes → Option IntentState
parse_state text =
    if same text (codes "PREPARED")
    then some prepared
    else (if same text (codes "OUTCOME_UNKNOWN")
        then some outcome_unknown
        else (if same text (codes "CONFIRMED")
            then some confirmed
            else (if same text (codes "REJECTED") then some rejected else none)))

abbrev pub is_kind : WriteKind → WriteKind → Bool
is_kind precommit precommit = true
is_kind benchmark benchmark = true
is_kind proof proof = true
is_kind _ _ = false

abbrev pub is_state : IntentState → IntentState → Bool
is_state prepared prepared = true
is_state outcome_unknown outcome_unknown = true
is_state confirmed confirmed = true
is_state rejected rejected = true
is_state _ _ = false

-- `state IN ('PREPARED', 'OUTCOME_UNKNOWN')`
abbrev pub is_claimable : IntentState → Bool
is_claimable prepared = true
is_claimable outcome_unknown = true
is_claimable confirmed = false
is_claimable rejected = false
