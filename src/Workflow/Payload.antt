-- ===== src/Workflow/Payload.antt =====
-- crates/pool-workflow/src/payload.rs: what the pool submits. A JSON value is of the type that the
-- JSON library has for it.
use tig_mining_pool_public.Common.{ℕ, Bool, Option, List}
use tig_mining_pool_public.Common.Bytes.{Bytes}
use tig_mining_pool_public.Common.Int.{ℤ}
use tig_mining_pool_public.Common.Map.{Map}

-- What the code calls of `serde_json::Value`.
pub record Json (Value : Type 0) : Type 0 where
  pub get : Bytes → Value → Option Value
  pub as_str : Value → Option Bytes
  pub as_u64 : Value → Option ℕ
  pub as_object : Value → Option (Map Value)
  pub is_null : Value → Bool
  pub to_string : Value → Bytes

pub record TrackSettings (Value : Type 0) : Type 0 where
  pub num_bundles : ℕ
  pub fuel_budget : ℕ
  pub hyperparameters : Map Value

pub record PrecommitSubmission (Value : Type 0) : Type 0 where
  pub player_id : Bytes
  pub block_id : Bytes
  pub challenge_id : Bytes
  pub algorithm_id : Bytes
  pub compute_type : Bytes
  pub track_settings : Map (TrackSettings Value)

pub record BenchmarkSubmission : Type 0 where
  pub benchmark_id : Bytes
  pub merkle_root : Bytes
  pub solution_quality : List ℤ
