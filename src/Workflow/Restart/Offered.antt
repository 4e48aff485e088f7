-- ===== src/Workflow/Restart/Offered.antt =====
-- crates/pool-workflow/src/restart.rs: evidence that a call takes leads to the next.
use tig_mining_pool_public.Common.{ℕ, ◌≡◌, refl, true, false, not, ◌&&◌, none, some, [], ok, arith}
use tig_mining_pool_public.Common.Bytes.{Bytes, contains}
use tig_mining_pool_public.Common.Map.{get}
use tig_mining_pool_public.Gateway.Network.{Network}
use tig_mining_pool_public.Workflow.Lifecycle
use tig_mining_pool_public.Workflow.Lifecycle.{
  WorkflowState, is_terminal, is_state, Workflow, ConfirmedBenchmark, ConfirmedProof, Db,
}
use tig_mining_pool_public.Workflow.Lifecycle.Calls.{
  confirm_benchmark, confirm_proof, confirm_verified,
}
use tig_mining_pool_public.Workflow.Restart.{
  ConfirmedWindow, verdict, follow, is_known, close_up, offer_verified, offer_proof,
  offer_benchmark, offer_fraud, advance_benchmark, advance_one,
}

module _ {V : Type 0} (network : Network) (window : ConfirmedWindow V) (id b : Bytes) where
  -- A call answers with a row in the state and at the revision to go on from.
  module _ (st to : WorkflowState) (r next : ℕ) (s t : Db V) (x : Workflow V) (is_at : x.state ≡ to)
      (is_next : x.revision ≡ next) where
    pub benchmark-on :
        (e : ConfirmedBenchmark)
        → confirm_benchmark network id r e s ≡ (t, ok x)
        → offer_benchmark network window id b (some e) st r s
          ≡ offer_proof network window id b (get b window.proofs) to next t
    unfolding offer_benchmark verdict follow
    benchmark-on e c = rw (c, is_at, is_next) refl

    pub proof-on :
        (p : ConfirmedProof)
        → get b window.proofs ≡ some p
        → confirm_proof network id r p s ≡ (t, ok x)
        → offer_proof network window id b (get b window.proofs) st r s
          ≡ offer_verified network window id b to next t
    unfolding offer_proof verdict follow
    proof-on p g c = rw (g, c, is_at, is_next) refl

    pub verified-on :
        contains b window.verified ≡ true
        → confirm_verified network id r b window.at_block s ≡ (t, ok x)
        → offer_verified network window id b st r s ≡ close_up network window id b to next t
    unfolding offer_verified verdict follow
    verified-on v c = rw (v, c, is_at) refl

  pub close_up-verified :
      (r : ℕ) (s : Db V)
      → close_up network window id b Lifecycle.verified r s ≡ (s, [], ok Lifecycle.verified)
  unfolding close_up
  close_up-verified r s = refl

  pub advance_one-on :
      (w : Workflow V) (s : Db V) (e : ConfirmedBenchmark)
      → w.benchmark_id ≡ some b
      → w.workflow_id ≡ id
      → get b window.frauds ≡ none
      → get b window.benchmarks ≡ some e
      → advance_one network window w s
        ≡ offer_benchmark network window id b (some e) w.state w.revision s
  unfolding advance_one advance_benchmark offer_fraud
  advance_one-on w s e o i f g =
      let known : (not (is_known b window) && not (is_state w.state Lifecycle.verified)) ≡ false =
        rw g (ground arith) in
      rw (o, known, f, g, i) refl
