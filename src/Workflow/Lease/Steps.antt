-- ===== src/Workflow/Lease/Steps.antt =====
-- crates/pool-workflow/src/lease.rs: what processes do to the leases, one call at a time.
use tig_mining_pool_public.Common.{ℕ, ◌+◌}
use tig_mining_pool_public.Common.Bytes.{Bytes}
use tig_mining_pool_public.Common.Int.{ℤ}
use tig_mining_pool_public.Workflow.Lease.{Key, Lease, Store, claim, release}

-- A call, whatever its answer, or time that passes. A caller may present any lease.
pub data Step : Store → Store → Type 0 where
  claims :
      (key : Key) (owner : Bytes) (seconds : ℤ) (s : Store) → Step s (claim key owner seconds s).0
  releases : (lease : Lease) (s : Store) → Step s (release lease s).0
  waits : (seconds : ℕ) (s : Store) → Step s (record s { now = s.now + seconds })

pub data Steps : Store → Store → Type 0 where
  stays : (s : Store) → Steps s s
  goes : (s t u : Store) → Step s t → Steps t u → Steps s u
