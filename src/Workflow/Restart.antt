-- ===== src/Workflow/Restart.antt =====
-- crates/pool-workflow/src/restart.rs: what a restart makes of the workflows that are live. A failure
-- keeps its error in place of the error's text.
pub mod Called
pub mod Reported
pub mod Offered
pub mod Rows
pub mod Gaps
pub mod Observed
pub mod Landed
pub mod CaughtUp
use tig_mining_pool_public.Common.{
  ℕ, ◌+◌, Bool, true, false, not, ◌&&◌, ◌||◌, if◌then◌else◌, Option, none, some, List, [], ◌∷◌,
  ◌++◌, Result, ok, err,
}
use tig_mining_pool_public.Common.Bytes.{Bytes, contains}
use tig_mining_pool_public.Common.Int.{ℤ}
use tig_mining_pool_public.Common.Map.{Map, get}
use tig_mining_pool_public.Gateway.Network.{Network}
use tig_mining_pool_public.Workflow.Attempt.Queries.{any, has_transmitted_precommit_write}
use tig_mining_pool_public.Workflow.Lifecycle.{
  WorkflowState, is_terminal, is_state, Workflow, ConfirmedPrecommit, ConfirmedBenchmark,
  ConfirmedProof, ConfirmedFraud, WorkflowError, Db,
}
use tig_mining_pool_public.Workflow.Lifecycle
use tig_mining_pool_public.Workflow.Lifecycle.Table.{is_some}
use tig_mining_pool_public.Workflow.Lifecycle.Calls.{
  confirm_fraud, confirm_benchmark, confirm_proof, confirm_verified,
}
use tig_mining_pool_public.Workflow.Lifecycle.Expiry.{in_states}

pub record ConfirmedWindow (V : Type 0) : Type 0 where
  pub precommits : Map (ConfirmedPrecommit V)
  pub benchmarks : Map ConfirmedBenchmark
  pub proofs : Map ConfirmedProof
  pub frauds : Map ConfirmedFraud
  pub verified : List Bytes
  pub active : List Bytes
  pub at_block : ℤ

pub record Reconciled : Type 0 where
  pub workflow_id : Bytes
  pub from : WorkflowState
  pub to : WorkflowState

pub data NeedsAttention : Type 0 where
  contradicted : (workflow_id benchmark_id recorded_state : Bytes) → NeedsAttention
  failed : (workflow_id : Bytes) → WorkflowError → NeedsAttention
  precommit_search_owed : (workflow_id : Bytes) → NeedsAttention
  verification_missed : (workflow_id benchmark_id : Bytes) → NeedsAttention
  outside_window : (workflow_id benchmark_id : Bytes) → NeedsAttention

pub record RestartReport : Type 0 where
  pub advanced : List Reconciled
  pub unchanged : List Bytes
  pub needs_attention : List NeedsAttention

abbrev pub blocks : NeedsAttention → Bool
blocks (contradicted w b s) = true
blocks (failed w why) = true
blocks (precommit_search_owed w) = false
blocks (verification_missed w b) = false
blocks (outside_window w b) = false

unfoldable pub blocks_claiming : RestartReport → Bool
blocks_claiming report = any blocks report.needs_attention

-- What becomes of one piece of evidence: the state and the revision to go on from, or the end.
pub data Verdict : Type 0 where
  goes_on : WorkflowState → ℕ → Verdict
  contradicts : (recorded : Bytes) → Verdict
  fails : WorkflowError → Verdict

-- The database, what is pushed to the report, and the state that the workflow ends in.
abbrev pub Answer : Type 0 → Type 0
Answer V = Db V × List NeedsAttention × Result WorkflowError WorkflowState

module _ {V : Type 0} where
  unfoldable pub verdict : WorkflowState → ℕ → Result WorkflowError (Workflow V) → Verdict
  verdict state revision (ok w) = goes_on w.state w.revision
  verdict state revision (err (Lifecycle.not_allowed n i a b)) = goes_on state revision
  verdict state revision (err (Lifecycle.terminal_state_contradicted n i recorded)) =
      contradicts recorded
  verdict state revision (err why) = fails why

  -- Of a fraud entry, after which nothing else is looked at.
  unfoldable pub fraud_verdict : Result WorkflowError (Workflow V) → Verdict
  fraud_verdict (ok w) = goes_on w.state w.revision
  fraud_verdict (err (Lifecycle.terminal_state_contradicted n i recorded)) = contradicts recorded
  fraud_verdict (err why) = fails why

  unfoldable pub follow :
      Bytes
      → Bytes
      → WorkflowState
      → Db V
      → Verdict
      → (WorkflowState → ℕ → Db V → Answer V)
      → Answer V
  follow id b state db (goes_on to revision) next = next to revision db
  follow id b state db (contradicts recorded) next = (db, contradicted id b recorded ∷ [], ok state)
  follow id b state db (fails why) next = (db, [], err why)

  abbrev pub is_known : Bytes → ConfirmedWindow V → Bool
  is_known b window =
      is_some (get b window.precommits)
      || is_some (get b window.benchmarks)
      || is_some (get b window.proofs)
      || is_some (get b window.frauds)
      || contains b window.verified
      || contains b window.active

  module _ (network : Network) (window : ConfirmedWindow V) (id b : Bytes) where
    -- Active work that is neither verified nor at an end.
    unfoldable pub close_up : WorkflowState → ℕ → Db V → Answer V
    close_up state revision db =
        if not (is_state state Lifecycle.verified)
          && not (is_terminal state)
          && contains b window.active
        then (db, verification_missed id b ∷ [], ok state)
        else (db, [], ok state)

    unfoldable pub offer_verified : WorkflowState → ℕ → Db V → Answer V
    unfolding verdict follow close_up
    offer_verified state revision db =
        if contains b window.verified
        then (let answer = confirm_verified network id revision b window.at_block db in
            follow id b state answer.0 (verdict state revision answer.1) close_up)
        else close_up state revision db

    unfoldable pub offer_proof : Option ConfirmedProof → WorkflowState → ℕ → Db V → Answer V
    unfolding verdict follow offer_verified
    offer_proof none state revision db = offer_verified state revision db
    offer_proof (some proof) state revision db =
        let answer = confirm_proof network id revision proof db in
        follow id b state answer.0 (verdict state revision answer.1) offer_verified

    unfoldable pub offer_benchmark : Option ConfirmedBenchmark → WorkflowState → ℕ → Db V → Answer V
    unfolding verdict follow offer_proof
    offer_benchmark none state revision db = offer_proof (get b window.proofs) state revision db
    offer_benchmark (some benchmark) state revision db =
        let answer = confirm_benchmark network id revision benchmark db in
        follow id b state answer.0 (verdict state revision answer.1)
          (offer_proof (get b window.proofs))

    unfoldable pub offer_fraud : Option ConfirmedFraud → WorkflowState → ℕ → Db V → Answer V
    unfolding fraud_verdict follow offer_benchmark
    offer_fraud none state revision db = offer_benchmark (get b window.benchmarks) state revision db
    offer_fraud (some fraud) state revision db =
        let answer = confirm_fraud network id revision fraud db in
        follow id b state answer.0 (fraud_verdict answer.1) (λ to r after. (after, [], ok to))

  unfoldable pub advance_benchmark :
      Network → ConfirmedWindow V → Workflow V → Option Bytes → Db V → Answer V
  unfolding offer_fraud
  advance_benchmark network window current none db =
      if has_transmitted_precommit_write network current.workflow_id db.ledger
      then (db, precommit_search_owed current.workflow_id ∷ [], ok current.state)
      else (db, [], ok current.state)
  advance_benchmark network window current (some b) db =
      if not (is_known b window) && not (is_state current.state Lifecycle.verified)
      then (db, outside_window current.workflow_id b ∷ [], ok current.state)
      else offer_fraud network window current.workflow_id b (get b window.frauds) current.state
          current.revision db

  unfoldable pub advance_one : Network → ConfirmedWindow V → Workflow V → Db V → Answer V
  unfolding advance_benchmark
  advance_one network window current db =
      advance_benchmark network window current current.benchmark_id db

  -- The report after one workflow. What was pushed before an error stays pushed.
  abbrev pub noted :
      Workflow V
      → List NeedsAttention
      → Result WorkflowError WorkflowState
      → RestartReport
      → RestartReport
  noted w pushed (err why) report = record report {
    needs_attention = report.needs_attention ++ (pushed ++ failed w.workflow_id why ∷ []);
  }
  noted w pushed (ok to) report =
      if is_state to w.state
      then record report {
        unchanged = report.unchanged ++ w.workflow_id ∷ [];
        needs_attention = report.needs_attention ++ pushed;
      }
      else record report {
        advanced =
            report.advanced
            ++ (record { workflow_id = w.workflow_id; from = w.state; to = to }) ∷ [];
        needs_attention = report.needs_attention ++ pushed;
      }

  unfoldable pub advance_all :
      Network → ConfirmedWindow V → List (Workflow V) → Db V → RestartReport → Db V × RestartReport
  unfolding advance_one
  advance_all network window [] db report = (db, report)
  advance_all network window (w ∷ rest) db report =
      let answer = advance_one network window w db in
      advance_all network window rest answer.0 (noted w answer.1 answer.2 report)

  unfoldable pub nonterminal : Network → Db V → List (Workflow V)
  unfolding in_states
  nonterminal network db = in_states network (λ state. not (is_terminal state)) db

  unfoldable pub reconcile_after_restart : Network → ConfirmedWindow V → Db V → Db V × RestartReport
  unfolding nonterminal advance_all
  reconcile_after_restart network window db =
      advance_all network window (nonterminal network db) db
        (record { advanced = []; unchanged = []; needs_attention = [] })
