-- ===== src/Workflow/Attempt/Steps.antt =====
-- crates/pool-workflow/src/attempt.rs: the ledger among its callers, one call at a time.
use tig_mining_pool_public.Common.{Option, List}
use tig_mining_pool_public.Common.Bytes.{Bytes}
use tig_mining_pool_public.Common.Int.{ℤ}
use tig_mining_pool_public.Workflow.Lease.{Lease, Store}
use tig_mining_pool_public.Workflow.Lease.Steps.{Step as LeaseStep}
use tig_mining_pool_public.Workflow.Intent.{IntentRow}
use tig_mining_pool_public.Workflow.Attempt.{AttemptOutcome, Ledger}
use tig_mining_pool_public.Workflow.Attempt.Begin.{begin, begin_fenced}
use tig_mining_pool_public.Workflow.Attempt.Resolve.{resolve, reconcile}

-- A call, whatever its answer; a change to the leases; or whatever the controller writes to the
-- intents.
pub data Step : Ledger → Ledger → Type 0 where
  begins : (attempt_id intent_id : Bytes) (l : Ledger) → Step l (begin attempt_id intent_id l).0
  begins_fenced :
      (attempt_id intent_id : Bytes) (lease : Lease) (l : Ledger)
      → Step l (begin_fenced attempt_id intent_id lease l).0
  resolves :
      (attempt_id : Bytes) (outcome : AttemptOutcome) (status : Option ℤ) (detail : Option Bytes)
      (l : Ledger)
      → Step l (resolve attempt_id outcome status detail l).0
  reconciles :
      (attempt_id : Bytes) (settled : AttemptOutcome) (l : Ledger)
      → Step l (reconcile attempt_id settled l).0
  leases : (l : Ledger) (s : Store) → LeaseStep l.leases s → Step l (record l { leases = s })
  intents : (l : Ledger) (rows : List IntentRow) → Step l (record l { intents = rows })

pub data Steps (start : Ledger) : Ledger → Type 0 where
  stays : Steps start start
  goes : (m l : Ledger) → Steps start m → Step m l → Steps start l
