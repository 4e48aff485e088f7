-- ===== src/Decision/Compute.antt =====
-- The compute that a member offers and a challenge needs, of crates/pool-decision/src/challenge.rs.
use tig_mining_pool_public.Common.{ℕ, Bool, true, false}

pub data OfferedCompute : Type 0 where
  cpu : ℕ → OfferedCompute
  gpu : OfferedCompute

pub data ComputeType : Type 0 where
  cpu_challenge gpu_challenge : ComputeType

unfoldable pub matches_challenge : OfferedCompute → ComputeType → Bool
matches_challenge (cpu cores) cpu_challenge = true
matches_challenge (cpu cores) gpu_challenge = false
matches_challenge gpu cpu_challenge = false
matches_challenge gpu gpu_challenge = true
