-- ===== src/Workflow/Lifecycle/Steps.antt =====
-- crates/pool-workflow/src/workflow.rs: what processes do to the workflows, one call at a time.
use tig_mining_pool_public.Common.{ℕ, ◌≡◌, Bool}
use tig_mining_pool_public.Common.Bytes.{Bytes}
use tig_mining_pool_public.Common.Int.{ℤ}
use tig_mining_pool_public.Gateway.Network.{Network}
use tig_mining_pool_public.Workflow.Deadlines.{Guardrails}
use tig_mining_pool_public.Workflow.Lifecycle.{
  Owner, ConfirmedPrecommit, ConfirmedBenchmark, ConfirmedProof, ConfirmedFraud, Db,
}
use tig_mining_pool_public.Workflow.Lifecycle.Decide.{Submitted}
use tig_mining_pool_public.Workflow.Lifecycle.Calls.{
  create, record_submitted, confirm_precommit, confirm_benchmark, confirm_proof, confirm_verified,
  confirm_fraud, fail, expire_inner,
}
use tig_mining_pool_public.Workflow.Lifecycle.Expiry.{expire_if_due}

module _ {V : Type 0} where
  -- A call, whatever its answer, or anything that others do to the attempts and the decisions. A
  -- caller may present any revision and any evidence.
  pub data Step : Db V → Db V → Type 0 where
    creates :
        (network : Network) (id : Bytes) (owner : Owner) (owner_id : Bytes) (from : ℤ) (s : Db V)
        → Step s (create network id owner owner_id from s).0
    submits :
        (network : Network) (id : Bytes) (revision : ℕ) (which : Submitted) (s : Db V)
        → Step s (record_submitted network id revision which s).0
    confirms_precommit :
        (network : Network) (id : Bytes) (revision : ℕ) (e : ConfirmedPrecommit V) (s : Db V)
        → Step s (confirm_precommit network id revision e s).0
    confirms_benchmark :
        (network : Network) (id : Bytes) (revision : ℕ) (e : ConfirmedBenchmark) (s : Db V)
        → Step s (confirm_benchmark network id revision e s).0
    confirms_proof :
        (network : Network) (id : Bytes) (revision : ℕ) (e : ConfirmedProof) (s : Db V)
        → Step s (confirm_proof network id revision e s).0
    confirms_verified :
        (network : Network) (id : Bytes) (revision : ℕ) (benchmark_id : Bytes) (at_block : ℤ)
        (s : Db V)
        → Step s (confirm_verified network id revision benchmark_id at_block s).0
    confirms_fraud :
        (network : Network) (id : Bytes) (revision : ℕ) (e : ConfirmedFraud) (s : Db V)
        → Step s (confirm_fraud network id revision e s).0
    fails :
        (network : Network) (id : Bytes) (revision : ℕ) (reason : Bytes) (at_block : ℤ) (s : Db V)
        → Step s (fail network id revision reason at_block s).0
    expires :
        (network : Network) (id : Bytes) (revision : ℕ) (reason : Bytes) (at_block : ℤ)
        (guarded : Bool) (s : Db V)
        → Step s (expire_inner network id revision reason at_block guarded s).0
    sweeps :
        (guardrails : Guardrails) (network : Network) (id : Bytes) (block : ℤ) (s : Db V)
        → Step s (expire_if_due guardrails network id block s).0
    others : (s t : Db V) → t.workflows ≡ s.workflows → Step s t

  pub data Steps : Db V → Db V → Type 0 where
    stays : (s : Db V) → Steps s s
    goes : (s t u : Db V) → Step s t → Steps t u → Steps s u
