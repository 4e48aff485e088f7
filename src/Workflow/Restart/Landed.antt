-- ===== src/Workflow/Restart/Landed.antt =====
-- crates/pool-workflow/src/restart.rs: the state that a turn answers is the row's.
use tig_mining_pool_public.Common.{
  ℕ, ◌≡◌, ◌⊎◌, refl, sym, ap, ◌∙◌, false, not, ◌&&◌, inl, inr, Bool-cases, Option, none, some, [],
  Result, Result-cases, ok, err,
}
use tig_mining_pool_public.Common.Bytes.{Bytes, contains}
use tig_mining_pool_public.Common.Map.{get}
use tig_mining_pool_public.Gateway.Network.{Network}
use tig_mining_pool_public.Workflow.Attempt.Queries.{has_transmitted_precommit_write}
use tig_mining_pool_public.Workflow.Lifecycle
use tig_mining_pool_public.Workflow.Lifecycle.{
  WorkflowState, is_terminal, is_state, Workflow, ConfirmedBenchmark, ConfirmedProof,
  ConfirmedFraud, WorkflowError, Fields, Db,
}
use tig_mining_pool_public.Workflow.Lifecycle.Table.{find, updated, transition_guarded, commit}
use tig_mining_pool_public.Workflow.Lifecycle.Calls.{
  transition, confirm_fraud, confirm_benchmark, confirm_proof, confirm_verified,
}
use tig_mining_pool_public.Workflow.Lifecycle.Moves.{transition_guarded-Written}
use tig_mining_pool_public.Workflow.Lifecycle.Kept.{find-In, find-replace}
use tig_mining_pool_public.Workflow.Restart.{
  ConfirmedWindow, Verdict, goes_on, contradicts, fails, verdict, fraud_verdict, Answer, follow,
  is_known, close_up, offer_verified, offer_proof, offer_benchmark, offer_fraud, advance_benchmark,
  advance_one,
}

module _ {V : Type 0} (network : Network) (id : Bytes) where
  -- The row of the workflow is in the state.
  abbrev pub IsIn : WorkflowState → Db V → Type 0
  IsIn state s = (v : Workflow V) × (find network id s ≡ some v) × (v.state ≡ state)

  -- A turn that began in a state: it changed nothing and answers that state, or it answers the row's.
  abbrev pub Lands : WorkflowState → Db V → Answer V → Type 0
  Lands state s (t, pushed, err why) = Unit
  Lands state s (t, pushed, ok to) = ((t ≡ s) × (to ≡ state)) ⊎ IsIn to t

  -- A call answers the row that it leaves, or it changes nothing.
  abbrev Answers : Db V → Db V × Result WorkflowError (Workflow V) → Type 0
  Answers s (t, ok new) = find network id t ≡ some new
  Answers s (t, err why) = t ≡ s

  transition-Answers :
      (r : ℕ) (to : WorkflowState) (decide : Workflow V → Result WorkflowError (Fields V))
      (s : Db V)
      → Answers s (transition network id r to decide s)
  unfolding transition commit find updated
  transition-Answers r to decide s =
      elim (Result-cases (transition_guarded network id r to false decide s)) [
        | inr (why, q) ↦ rw q refl
        | inl (new, q) ↦
            let h = transition_guarded-Written network id r to false decide s new q in
            let (_, n, i) = find-In network id s h.current h.found in
            rw q (
              find-replace network id h.current new s.workflows h.found
                (ap (λ w. w.network) h.row ∙ n) (ap (λ w. w.workflow_id) h.row ∙ i))
      ]

  after :
      (state to : WorkflowState) (s t : Db V) (a : Answer V)
      → ((t ≡ s) × (to ≡ state)) ⊎ IsIn to t
      → Lands to t a
      → Lands state s a
  after state to s t (u, pushed, err why) h l = tt
  after state to s t (u, pushed, ok last) h (inr i) = inr i
  after state to s t (u, pushed, ok last) (inl (p, q)) (inl (x, y)) = inl (x ∙ p, y ∙ q)
  after state to s t (u, pushed, ok last) (inr (v, f, q)) (inl (x, y)) =
      inr (v, ap (find network id) x ∙ f, q ∙ sym y)

  -- What a verdict may say of a database that a call left.
  abbrev Follows : WorkflowState → Db V → Db V → Verdict → Type 0
  Follows state s t (goes_on to revision) = ((t ≡ s) × (to ≡ state)) ⊎ IsIn to t
  Follows state s t (contradicts recorded) = t ≡ s
  Follows state s t (fails why) = Unit

  verdict-Follows :
      (state : WorkflowState) (r : ℕ) (s : Db V) (a : Db V × Result WorkflowError (Workflow V))
      → Answers s a
      → Follows state s a.0 (verdict state r a.1)
  unfolding verdict
  verdict-Follows state r s (t, ok w) h = inr (w, h, refl)
  verdict-Follows state r s (t, err (Lifecycle.not_allowed n i a b)) h = inl (h, refl)
  verdict-Follows state r s (t, err (Lifecycle.terminal_state_contradicted n i recorded)) h = h
  verdict-Follows state r s (t, err why) h = tt

  fraud_verdict-Follows :
      (state : WorkflowState) (s : Db V) (a : Db V × Result WorkflowError (Workflow V))
      → Answers s a
      → Follows state s a.0 (fraud_verdict a.1)
  unfolding fraud_verdict
  fraud_verdict-Follows state s (t, ok w) h = inr (w, h, refl)
  fraud_verdict-Follows state s (t, err (Lifecycle.terminal_state_contradicted n i recorded)) h = h
  fraud_verdict-Follows state s (t, err why) h = tt

  -- A continuation that lands from wherever it is given a state.
  abbrev AlwaysLands : (WorkflowState → ℕ → Db V → Answer V) → Type 0
  AlwaysLands next = (state : WorkflowState) (r : ℕ) (s : Db V) → Lands state s (next state r s)

  follow-Lands :
      (b : Bytes) (state : WorkflowState) (s t : Db V) (v : Verdict)
      (next : WorkflowState → ℕ → Db V → Answer V)
      → Follows state s t v
      → AlwaysLands next
      → Lands state s (follow id b state t v next)
  unfolding follow
  follow-Lands b state s t (goes_on to r) next h c = after state to s t (next to r t) h (c to r t)
  follow-Lands b state s t (contradicts recorded) next h c = inl (h, refl)
  follow-Lands b state s t (fails why) next h c = tt

  module _ (window : ConfirmedWindow V) (b : Bytes) where
    close_up-Lands : AlwaysLands (close_up network window id b)
    unfolding close_up
    close_up-Lands state r s =
        elim (Bool-cases (
          not (is_state state Lifecycle.verified)
          && not (is_terminal state)
          && contains b window.active)) [
            | inl e ↦ rw e (inl (refl, refl))
            | inr e ↦ rw e (inl (refl, refl))
          ]

    offer_verified-Lands : AlwaysLands (offer_verified network window id b)
    unfolding offer_verified confirm_verified transition
    offer_verified-Lands state r s =
        let answer = confirm_verified network id r b window.at_block s in
        elim (Bool-cases (contains b window.verified)) [
          | inl e ↦ rw e (
              follow-Lands b state s answer.0 (verdict state r answer.1)
                (close_up network window id b)
                (verdict-Follows state r s answer (transition-Answers r _ _ s)) close_up-Lands)
          | inr e ↦ rw e (close_up-Lands state r s)
        ]

    offer_proof-Lands :
        (o : Option ConfirmedProof) → AlwaysLands (offer_proof network window id b o)
    unfolding offer_proof confirm_proof transition
    offer_proof-Lands none state r s = offer_verified-Lands state r s
    offer_proof-Lands (some proof) state r s =
        let answer = confirm_proof network id r proof s in
        follow-Lands b state s answer.0 (verdict state r answer.1)
          (offer_verified network window id b)
          (verdict-Follows state r s answer (transition-Answers r _ _ s)) offer_verified-Lands

    offer_benchmark-Lands :
        (o : Option ConfirmedBenchmark) → AlwaysLands (offer_benchmark network window id b o)
    unfolding offer_benchmark confirm_benchmark transition
    offer_benchmark-Lands none state r s = offer_proof-Lands (get b window.proofs) state r s
    offer_benchmark-Lands (some benchmark) state r s =
        let answer = confirm_benchmark network id r benchmark s in
        follow-Lands b state s answer.0 (verdict state r answer.1)
          (offer_proof network window id b (get b window.proofs))
          (verdict-Follows state r s answer (transition-Answers r _ _ s))
          (offer_proof-Lands (get b window.proofs))

    offer_fraud-Lands :
        (o : Option ConfirmedFraud) → AlwaysLands (offer_fraud network window id b o)
    unfolding offer_fraud confirm_fraud transition
    offer_fraud-Lands none state r s = offer_benchmark-Lands (get b window.benchmarks) state r s
    offer_fraud-Lands (some fraud) state r s =
        let answer = confirm_fraud network id r fraud s in
        follow-Lands b state s answer.0 (fraud_verdict answer.1) (λ to n t. (t, [], ok to))
          (fraud_verdict-Follows state s answer (transition-Answers r _ _ s))
          (λ to n t. inl (refl, refl))

module _ {V : Type 0} (network : Network) (window : ConfirmedWindow V) (w : Workflow V) where
  advance_benchmark-Lands :
      (o : Option Bytes) (s : Db V)
      → Lands network w.workflow_id w.state s (advance_benchmark network window w o s)
  unfolding advance_benchmark
  advance_benchmark-Lands none s =
      elim (Bool-cases (has_transmitted_precommit_write network w.workflow_id s.ledger)) [
        | inl e ↦ rw e (inl (refl, refl))
        | inr e ↦ rw e (inl (refl, refl))
      ]
  advance_benchmark-Lands (some b) s =
      elim (Bool-cases (not (is_known b window) && not (is_state w.state Lifecycle.verified))) [
        | inl e ↦ rw e (inl (refl, refl))
        | inr e ↦ rw e (
            offer_fraud-Lands network w.workflow_id window b (get b window.frauds) w.state
              w.revision s)
      ]

  pub advance_one-Lands :
      (s : Db V) → Lands network w.workflow_id w.state s (advance_one network window w s)
  unfolding advance_one
  advance_one-Lands s = advance_benchmark-Lands w.benchmark_id s
