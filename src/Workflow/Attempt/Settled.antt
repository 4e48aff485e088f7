-- ===== src/Workflow/Attempt/Settled.antt =====
-- crates/pool-workflow/src/attempt.rs: a definitive outcome, and an attempt behind a fence.
use tig_mining_pool_public.Common.{
  ◌≡◌, inr, ap, Bool, false, List, if◌then◌else◌, ok, err, In, In-map, arith,
}
use tig_mining_pool_public.Common.Bytes.{Bytes}
use tig_mining_pool_public.Common.Int.{ℤ}
use tig_mining_pool_public.Workflow.Lease.{Key, Lease, Store, fence_lost as lost_fence, claim}
use tig_mining_pool_public.Workflow.Lease.Steps.{Steps as LeaseSteps}
use tig_mining_pool_public.Workflow.Lease.Fences.{fence_of}
use tig_mining_pool_public.Workflow.Lease.Superseded.{Ends, ended-IsLost}
use tig_mining_pool_public.Workflow.Attempt.{AttemptRow, Ledger, fence_lost, is_unresolved}
use tig_mining_pool_public.Workflow.Attempt.Begin.{fenced, begin_fenced}
use tig_mining_pool_public.Workflow.Attempt.Resolve.{update, is_open, is_unsettled}
use tig_mining_pool_public.Workflow.Attempt.Steps.{Steps, stays, goes}
use tig_mining_pool_public.Workflow.Attempt.Rows.{
  Change, none_changes, is_recorded, is_answered, is_reconciled, Step-Change,
}

In-update :
    (row : AttemptRow) (p : AttemptRow → Bool) (f : AttemptRow → AttemptRow)
    (rows : List AttemptRow)
    → p row ≡ false
    → In row rows
    → In row (update p f rows)
In-update row p f rows e i = rw e at (In-map (λ r. if p r then f r else r) row rows i)

Change-keeps :
    (l : Ledger) (rows : List AttemptRow) (row : AttemptRow)
    → Change l rows
    → is_unresolved row.outcome ≡ false
    → In row l.attempts
    → In row rows
Change-keeps l rows row none_changes e i = i
Change-keeps l _ row (is_recorded _ _ _ _) e i = inr i
Change-keeps l _ row (is_answered id _ _ _) e i =
    In-update row (is_open id) _ l.attempts (ground arith) i
Change-keeps l _ row (is_reconciled id _ _) e i =
    In-update row (is_unsettled id) _ l.attempts (ground arith) i

-- An attempt that TIG has answered definitely, or that was settled, stays in the ledger as it is,
-- with its outcome and the response recorded with it, whatever is called.
pub Steps-keeps :
    (start l : Ledger) (row : AttemptRow)
    → Steps start l
    → is_unresolved row.outcome ≡ false
    → In row start.attempts
    → In row l.attempts
Steps-keeps start l row stays e i = i
Steps-keeps start l row (goes m _ before step) e i =
    Change-keeps m l.attempts row (Step-Change m l step) e (Steps-keeps start m row before e i)

-- A claimant whose lease has been reclaimed or released records no attempt behind its fence, for
-- any intent, in any ledger over leases that can be reached from there: the call changes nothing
-- and reports the lost fence.
pub ended-begin_fenced :
    (key : Key) (owner attempt_id intent_id : Bytes) (d : ℤ) (lease : Lease) (s t t' : Store)
    (l : Ledger)
    → (claim key owner d s).1 ≡ ok lease
    → LeaseSteps (claim key owner d s).0 t
    → Ends lease t t'
    → LeaseSteps t' l.leases
    → begin_fenced attempt_id intent_id lease l
      ≡ (l, err (fence_lost (lost_fence key lease.fence_token (fence_of key l.leases))))
unfolding begin_fenced
ended-begin_fenced key owner attempt_id intent_id d lease s t t' l e before ends after =
    let (_, lost) = ended-IsLost key owner d lease s t t' l.leases e before ends after in
    ap (λ r. fenced attempt_id intent_id r l) lost
