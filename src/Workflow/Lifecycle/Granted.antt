-- ===== src/Workflow/Lifecycle/Granted.antt =====
-- crates/pool-workflow/src/workflow.rs: a transition that is allowed is made.
use tig_mining_pool_public.Common.{
  ℕ, ◌≡◌, refl, ap, ◌∙◌, true, false, ◌||◌, ◌==◌, Option, none, some, List, [], ◌∷◌, Result, ok,
  Bool-cases, inl, inr, arith,
}
use tig_mining_pool_public.Common.Bytes.{Bytes, same, same_refl, eq_of_cmp}
use tig_mining_pool_public.Common.Int.{ℤ}
use tig_mining_pool_public.Gateway.Network.{Network}
use tig_mining_pool_public.Workflow.Attempt.Queries.{any}
use tig_mining_pool_public.Workflow.Lifecycle.{
  WorkflowState, benchmark_confirmed, proof_confirmed, verified, Workflow, ConfirmedBenchmark,
  ConfirmedProof, WorkflowError, Fields, Db,
}
use tig_mining_pool_public.Workflow.Lifecycle.Decide.{
  benchmark_state, benchmark_fields, proof_fields, verified_fields,
}
use tig_mining_pool_public.Workflow.Lifecycle.Table.{
  keeps_benchmark, keeps_start, find, is_row, is_valid, may_follow, is_claimed, holds, updated,
  write, transition_guarded, replace, commit,
}
use tig_mining_pool_public.Workflow.Lifecycle.Calls.{
  transition, confirm_benchmark, confirm_proof, confirm_verified,
}

id_stays : (o : Option Bytes) → keeps_benchmark o o ≡ true
id_stays none = refl
id_stays (some b) = same_refl b

start_stays : (o : Option ℤ) → keeps_start o o ≡ true
start_stays none = refl
start_stays (some b) = ground arith

module _ {V : Type 0} where
  -- A transition that brings no precommit passes the trigger.
  pub quiet-follows :
      (w : Workflow V) (to : WorkflowState) (f : Fields V)
      → f.benchmark_id ≡ none
      → f.block_started ≡ none
      → f.confirmed ≡ none
      → f.confirmed_num_nonces ≡ none
      → may_follow w (updated to f w) ≡ true
  unfolding may_follow updated
  quiet-follows w to f a b c d =
      let same_id = id_stays w.benchmark_id in
      let same_start = start_stays w.block_started in
      let same_count = start_stays w.confirmed_num_nonces in
      rw (a, b, c, d) (rw (same_id, same_start, same_count) (ground arith))

  any-replace :
      (v new : Workflow V) (xs : List (Workflow V))
      → v.network ≡ new.network
      → v.workflow_id ≡ new.workflow_id
      → any (holds v) (replace new xs) ≡ any (holds v) xs
  unfolding replace
  any-replace v new [] n i = refl
  any-replace v new (x ∷ xs) n i = elim (Bool-cases (is_row new.network new.workflow_id x)) [
    | inl t ↦
        let a : x.workflow_id ≡ new.workflow_id =
          eq_of_cmp x.workflow_id new.workflow_id (ground arith) in
        let p : same x.workflow_id v.workflow_id ≡ true = rw (a, i) (same_refl new.workflow_id) in
        let q : same new.workflow_id v.workflow_id ≡ true = rw i (same_refl new.workflow_id) in
        rw t (ground arith)
    | inr f ↦ rw f (ap (λ b. holds v x || b) (any-replace v new xs n i))
  ]

  -- A row's benchmark is no more claimed after the row is written.
  pub is_claimed-replace :
      (v new : Workflow V) (s : Db V)
      → v.network ≡ new.network
      → v.workflow_id ≡ new.workflow_id
      → is_claimed v s ≡ false
      → is_claimed v (record s { workflows = replace new s.workflows }) ≡ false
  unfolding is_claimed
  is_claimed-replace v new s n i c = any-replace v new s.workflows n i ∙ c

  pub transition-writes :
      (network : Network) (id : Bytes) (r : ℕ) (to : WorkflowState)
      (decide : Workflow V → Result WorkflowError (Fields V)) (s : Db V) (w : Workflow V)
      (f : Fields V)
      → find network id s ≡ some w
      → w.revision ≡ r
      → decide w ≡ ok f
      → may_follow w (updated to f w) ≡ true
      → is_valid (updated to f w) ≡ true
      → is_claimed (updated to f w) s ≡ false
      → transition network id r to decide s
        ≡ (record s { workflows = replace (updated to f w) s.workflows }, ok (updated to f w))
  unfolding transition transition_guarded write commit
  transition-writes network id r to decide s w f e q d a v c =
      let same_revision : (w.revision == r) ≡ true = ground arith in
      rw (e, same_revision, d, a, v, c) refl

  pub confirm_benchmark-goes :
      (network : Network) (id : Bytes) (r : ℕ) (e : ConfirmedBenchmark) (s : Db V)
      → e.stopped ≡ false
      → confirm_benchmark network id r e s
        ≡ transition network id r benchmark_confirmed (benchmark_fields network id e) s
  unfolding confirm_benchmark
  confirm_benchmark-goes network id r e s g =
      ap (λ b. transition network id r (benchmark_state b) (benchmark_fields network id e) s) g

  pub confirm_proof-eq :
      (network : Network) (id : Bytes) (r : ℕ) (p : ConfirmedProof) (s : Db V)
      → confirm_proof network id r p s
        ≡ transition network id r proof_confirmed (proof_fields network id p) s
  unfolding confirm_proof
  confirm_proof-eq network id r p s = refl

  pub confirm_verified-eq :
      (network : Network) (id : Bytes) (r : ℕ) (b : Bytes) (at_block : ℤ) (s : Db V)
      → confirm_verified network id r b at_block s
        ≡ transition network id r verified (verified_fields network id b at_block) s
  unfolding confirm_verified
  confirm_verified-eq network id r b at_block s = refl
