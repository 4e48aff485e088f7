-- ===== src/Workflow/Restart/Rows.antt =====
-- crates/pool-workflow/src/restart.rs: the rows that one pass goes through.
use tig_mining_pool_public.Common.{◌+◌, ◌≡◌, refl, false, Option, none, some}
use tig_mining_pool_public.Common.Bytes.{Bytes}
use tig_mining_pool_public.Common.Int.{ℤ}
use tig_mining_pool_public.Gateway.Network.{Network}
use tig_mining_pool_public.Workflow.Lifecycle.{
  WorkflowState, benchmark_confirmed, proof_confirmed, verified, Workflow, Db,
}
use tig_mining_pool_public.Workflow.Lifecycle.Table.{find, is_claimed, updated, replace}
use tig_mining_pool_public.Workflow.Lifecycle.Decide.{unchanged, closing}
use tig_mining_pool_public.Workflow.Lifecycle.Kept.{find-replace}

module _ {V : Type 0} where
  abbrev pub computed : Workflow V → Workflow V
  computed w = updated benchmark_confirmed unchanged w

  abbrev pub proven : Workflow V → Workflow V
  proven w = updated proof_confirmed unchanged (computed w)

  abbrev pub done : ℤ → Workflow V → Workflow V
  done block w = updated verified (closing block none) (proven w)

  abbrev pub stored : Workflow V → Db V → Db V
  stored w s = record s { workflows = replace w s.workflows }

  pub sole_still :
      (x : Workflow V) (to : WorkflowState) (block : Option ℤ) (reason : Option Bytes) (t : Db V)
      → is_claimed x t ≡ false
      → is_claimed
          (updated to
            (record unchanged { unverified_to_block = block; terminal_reason = reason })
            x)
          t
        ≡ false
  unfolding is_claimed updated
  sole_still x to block reason t c = c

  pub reaches :
      (to : WorkflowState) (block : Option ℤ) (reason : Option Bytes) (x : Workflow V)
      → ((updated to
            (record unchanged { unverified_to_block = block; terminal_reason = reason })
            x).state
          ≡ to)
        × ((updated to
              (record unchanged { unverified_to_block = block; terminal_reason = reason })
              x).revision
            ≡ x.revision + 1)
  unfolding updated
  reaches to block reason x = (refl, refl)

  pub proven_revision : (w : Workflow V) → (proven w).revision ≡ w.revision + 1 + 1
  unfolding updated
  proven_revision w = refl

  pub finds :
      (network : Network) (id : Bytes) (x new : Workflow V) (t : Db V)
      → find network id t ≡ some x
      → new.network ≡ network
      → new.workflow_id ≡ id
      → find network id (stored new t) ≡ some new
  unfolding find
  finds network id x new t e n i = find-replace network id x new t.workflows e n i
