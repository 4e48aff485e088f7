-- ===== src/Workflow/Restart/Called.antt =====
-- crates/pool-workflow/src/restart.rs: a restart changes the workflows by calls alone.
use tig_mining_pool_public.Common.{ℕ, not, ◌&&◌, inl, inr, Option, none, some, [], ok, Bool-cases}
use tig_mining_pool_public.Common.Bytes.{Bytes, contains}
use tig_mining_pool_public.Common.Map.{get}
use tig_mining_pool_public.Gateway.Network.{Network}
use tig_mining_pool_public.Workflow.Attempt.Queries.{has_transmitted_precommit_write}
use tig_mining_pool_public.Workflow.Lifecycle
use tig_mining_pool_public.Workflow.Lifecycle.{
  WorkflowState, is_terminal, is_state, Workflow, ConfirmedBenchmark, ConfirmedProof,
  ConfirmedFraud, WorkflowError, Db,
}
use tig_mining_pool_public.Workflow.Lifecycle.Steps.{
  Step, confirms_benchmark, confirms_proof, confirms_verified, confirms_fraud, Steps, stays, goes,
}
use tig_mining_pool_public.Workflow.Restart.{
  ConfirmedWindow, Verdict, goes_on, contradicts, fails, Answer, follow, is_known, close_up,
  offer_verified, offer_proof, offer_benchmark, offer_fraud, advance_benchmark, advance_one,
}

module _ {V : Type 0} where
  pub trans : (s t u : Db V) → Steps s t → Steps t u → Steps s u
  trans s t u (stays a) ys = ys
  trans s t u (goes a b c x xs) ys = goes a b u x (trans b c u xs ys)

  -- A continuation that makes calls from whatever it is given.
  abbrev Calls : (WorkflowState → ℕ → Db V → Answer V) → Type 0
  Calls next = (state : WorkflowState) (revision : ℕ) (s : Db V) → Steps s (next state revision s).0

  follow-Steps :
      (id b : Bytes) (state : WorkflowState) (s t : Db V) (v : Verdict)
      (next : WorkflowState → ℕ → Db V → Answer V)
      → Step s t
      → Calls next
      → Steps s (follow id b state t v next).0
  unfolding follow
  follow-Steps id b state s t (goes_on to revision) next x c = goes s t _ x (c to revision t)
  follow-Steps id b state s t (contradicts recorded) next x c = goes s t t x (stays t)
  follow-Steps id b state s t (fails why) next x c = goes s t t x (stays t)

  module _ (network : Network) (window : ConfirmedWindow V) (id b : Bytes) where
    close_up-Steps : Calls (close_up network window id b)
    unfolding close_up
    close_up-Steps state revision s =
        elim (Bool-cases (
          not (is_state state Lifecycle.verified)
          && not (is_terminal state)
          && contains b window.active)) [ inl e ↦ rw e (stays s) | inr e ↦ rw e (stays s) ]

    offer_verified-Steps : Calls (offer_verified network window id b)
    unfolding offer_verified
    offer_verified-Steps state revision s = elim (Bool-cases (contains b window.verified)) [
      | inl e ↦ rw e (
          follow-Steps id b state s _ _ (close_up network window id b)
            (confirms_verified network id revision b window.at_block s) close_up-Steps)
      | inr e ↦ rw e (close_up-Steps state revision s)
    ]

    offer_proof-Steps : (o : Option ConfirmedProof) → Calls (offer_proof network window id b o)
    unfolding offer_proof
    offer_proof-Steps none state revision s = offer_verified-Steps state revision s
    offer_proof-Steps (some proof) state revision s =
        follow-Steps id b state s _ _ (offer_verified network window id b)
          (confirms_proof network id revision proof s) offer_verified-Steps

    offer_benchmark-Steps :
        (o : Option ConfirmedBenchmark) → Calls (offer_benchmark network window id b o)
    unfolding offer_benchmark
    offer_benchmark-Steps none state revision s =
        offer_proof-Steps (get b window.proofs) state revision s
    offer_benchmark-Steps (some benchmark) state revision s =
        follow-Steps id b state s _ _ (offer_proof network window id b (get b window.proofs))
          (confirms_benchmark network id revision benchmark s)
          (offer_proof-Steps (get b window.proofs))

    offer_fraud-Steps : (o : Option ConfirmedFraud) → Calls (offer_fraud network window id b o)
    unfolding offer_fraud
    offer_fraud-Steps none state revision s =
        offer_benchmark-Steps (get b window.benchmarks) state revision s
    offer_fraud-Steps (some fraud) state revision s =
        follow-Steps id b state s _ _ (λ to r after. (after, [], ok to))
          (confirms_fraud network id revision fraud s) (λ to r after. stays after)

  advance_benchmark-Steps :
      (network : Network) (window : ConfirmedWindow V) (w : Workflow V) (o : Option Bytes)
      (s : Db V)
      → Steps s (advance_benchmark network window w o s).0
  unfolding advance_benchmark
  advance_benchmark-Steps network window w none s =
      elim (Bool-cases (has_transmitted_precommit_write network w.workflow_id s.ledger)) [
        | inl e ↦ rw e (stays s)
        | inr e ↦ rw e (stays s)
      ]
  advance_benchmark-Steps network window w (some b) s =
      elim (Bool-cases (not (is_known b window) && not (is_state w.state Lifecycle.verified))) [
        | inl e ↦ rw e (stays s)
        | inr e ↦ rw e (
            offer_fraud-Steps network window w.workflow_id b (get b window.frauds) w.state
              w.revision s)
      ]

  pub advance_one-Steps :
      (network : Network) (window : ConfirmedWindow V) (w : Workflow V) (s : Db V)
      → Steps s (advance_one network window w s).0
  unfolding advance_one
  advance_one-Steps network window w s = advance_benchmark-Steps network window w w.benchmark_id s
