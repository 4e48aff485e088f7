-- ===== src/Workflow/Lifecycle/Turns.antt =====
-- crates/pool-workflow/src/workflow.rs: a call does to the rows what a turn may, and no more.
use tig_mining_pool_public.Common.{
  ℕ, ◌≡◌, refl, ap, Bool, true, false, not, ◌&&◌, Option, none, some, [], ◌∷◌, ◌++◌, Result, ok,
  err, ◌>>◌, subst, arith, inl, inr, Result-cases, Bool-cases,
}
use tig_mining_pool_public.Common.Bytes.{Bytes}
use tig_mining_pool_public.Common.Int.{ℤ}
use tig_mining_pool_public.Gateway.Network.{Network}
use tig_mining_pool_public.Workflow.Deadlines.{Guardrails}
use tig_mining_pool_public.Workflow.Lifecycle.{
  Owner, WorkflowState, failed, expired, Workflow, WorkflowError, unavailable, not_found,
  stale_revision, benchmark_already_claimed, write_in_flight, benchmark_mismatch, not_allowed,
  member_fault_not_available, terminal_state_contradicted, Fields, Db,
}
use tig_mining_pool_public.Workflow.Lifecycle.Table.{
  is_some, find, is_valid, may_follow, is_claimed, updated, transition_guarded, replace, commit,
}
use tig_mining_pool_public.Workflow.Lifecycle.Decide.{reject_member_fault, ended_fields}
use tig_mining_pool_public.Workflow.Lifecycle.Calls.{
  transition, record_submitted, confirm_precommit, confirm_benchmark, confirm_proof,
  confirm_verified, confirm_fraud, fail, expire_inner, created, create,
}
use tig_mining_pool_public.Workflow.Lifecycle.Expiry.{
  expire_if_due, expire_found, expiry_answer, is_due, reason_code,
}
use tig_mining_pool_public.Workflow.Lifecycle.Moves.{Move, Written, transition_guarded-Written}
use tig_mining_pool_public.Workflow.Lifecycle.Steps.{
  Step, creates, submits, confirms_precommit, confirms_benchmark, confirms_proof, confirms_verified,
  confirms_fraud, fails, expires, sweeps, others,
}
use tig_mining_pool_public.Workflow.Lifecycle.Allowed.{
  Allows, submitted-Allows, precommit-Allows, benchmark-Allows, proof-Allows, verified-Allows,
  fraud-Allows, failed-Allows, expired-Allows,
}

module _ {V : Type 0} where
  -- What a call may do to the rows, of which it writes one at most.
  pub data Turn (s t : Db V) : Type 0 where
    leaves : t.workflows ≡ s.workflows → Turn s t
    adds :
        (network : Network) (id : Bytes) (owner : Owner) (owner_id : Bytes) (from : ℤ)
        → find network id s ≡ none
        → t.workflows ≡ s.workflows ++ (created network id owner owner_id from) ∷ []
        → Turn s t
    moves :
        (network : Network) (id : Bytes) (w : Workflow V) (to : WorkflowState) (f : Fields V)
        → find network id s ≡ some w
        → Move w to f
        → may_follow w (updated to f w) ≡ true
        → is_valid (updated to f w) ≡ true
        → is_claimed (updated to f w) s ≡ false
        → t.workflows ≡ replace (updated to f w) s.workflows
        → Turn s t

  commit-Turn :
      (s : Db V) (r : Result WorkflowError (Workflow V)) (network : Network) (id : Bytes)
      (revision : ℕ) (to : WorkflowState) (decide : Workflow V → Result WorkflowError (Fields V))
      → Allows to decide
      → ((new : Workflow V) → r ≡ ok new → Written network id revision to decide s new)
      → Turn s (commit s r).0
  unfolding commit
  commit-Turn s (err why) network id revision to decide a f = leaves refl
  commit-Turn s (ok new) network id revision to decide a f =
      let h = f new refl in
      moves network id h.current to h.fields h.found (a h.current h.fields h.decided_on)
        (subst (λ x. may_follow h.current x ≡ true) h.row h.follows)
        (subst (λ x. is_valid x ≡ true) h.row h.valid)
        (subst (λ x. is_claimed x s ≡ false) h.row h.unclaimed)
        (ap (λ x. replace x s.workflows) h.row)

  transition-Turn :
      (network : Network) (id : Bytes) (revision : ℕ) (to : WorkflowState)
      (decide : Workflow V → Result WorkflowError (Fields V)) (s : Db V)
      → Allows to decide
      → Turn s (transition network id revision to decide s).0
  unfolding transition
  transition-Turn network id revision to decide s a =
      commit-Turn s (transition_guarded network id revision to false decide s) network id revision
        to decide a
        (λ new e. transition_guarded-Written network id revision to false decide s new e)

  -- A call that first rejects a reason.
  ended-Turn :
      (network : Network) (id : Bytes) (revision : ℕ) (to : WorkflowState) (guarded : Bool)
      (reason : Bytes) (block : ℤ) (s : Db V)
      → (reject_member_fault reason ≡ ok tt
          → Allows {V = V} to (ended_fields network id to reason block))
      → Turn s
          (commit s (
            reject_member_fault reason
            >> transition_guarded network id revision to guarded
                (ended_fields network id to reason block)
                s)).0
  unfolding commit
  ended-Turn network id revision to guarded reason block s a =
      elim (Result-cases (reject_member_fault reason)) [
        | inl (u, q) ↦ rw q (
            commit-Turn s
              (transition_guarded network id revision to guarded
                (ended_fields network id to reason block) s)
              network id revision to (ended_fields network id to reason block) (a q)
              (λ new e. transition_guarded-Written network id revision to guarded _ s new e))
        | inr (why, q) ↦ rw q (leaves refl)
      ]

module _ {V : Type 0} (network : Network) (id : Bytes) where
  expire_inner-Turn :
      (revision : ℕ) (reason : Bytes) (block : ℤ) (guarded : Bool) (s : Db V)
      → Turn s (expire_inner network id revision reason block guarded s).0
  unfolding expire_inner
  expire_inner-Turn revision reason block guarded s =
      ended-Turn network id revision expired guarded reason block s
        (expired-Allows network id reason block)

  create-Turn :
      (owner : Owner) (owner_id : Bytes) (from : ℤ) (s : Db V)
      → Turn s (create network id owner owner_id from s).0
  unfolding create
  create-Turn owner owner_id from s =
      elim (Bool-cases (
        is_valid (created {V = V} network id owner owner_id from)
        && not (is_some (find network id s)))) [
          | inl h ↦ rw h (adds network id owner owner_id from (absent _ _ h) refl)
          | inr h ↦ rw h (leaves refl)
        ]
    where
      absent : (b : Bool) (o : Option (Workflow V)) → (b && not (is_some o)) ≡ true → o ≡ none
      absent b o h = ground arith

  expiry_answer-Turn :
      (s : Db V) (r : Db V × Result WorkflowError (Workflow V))
      → Turn s r.0
      → Turn s (expiry_answer r).0
  unfolding expiry_answer
  expiry_answer-Turn s (t, ok w) h = h
  expiry_answer-Turn s (t, err (write_in_flight n i)) h = h
  expiry_answer-Turn s (t, err unavailable) h = h
  expiry_answer-Turn s (t, err (not_found n i)) h = h
  expiry_answer-Turn s (t, err (stale_revision n i a b)) h = h
  expiry_answer-Turn s (t, err (benchmark_mismatch n i a b)) h = h
  expiry_answer-Turn s (t, err (not_allowed n i a b)) h = h
  expiry_answer-Turn s (t, err (member_fault_not_available r)) h = h
  expiry_answer-Turn s (t, err (terminal_state_contradicted n i a)) h = h
  expiry_answer-Turn s (t, err (benchmark_already_claimed n i)) h = h

  expire_found-Turn :
      (g : Guardrails) (block : ℤ) (found : Option (Workflow V)) (s : Db V)
      → Turn s (expire_found g network id block found s).0
  unfolding expire_found
  expire_found-Turn g block none s = leaves refl
  expire_found-Turn g block (some w) s = elim (Bool-cases (is_due g network id block w s)) [
    | inl h ↦ rw h (
        expiry_answer-Turn s (expire_inner network id w.revision (reason_code w) block true s)
          (expire_inner-Turn w.revision (reason_code w) block true s))
    | inr h ↦ rw h (leaves refl)
  ]

-- Each call makes a turn.
pub Step-Turn : {V : Type 0} (s t : Db V) → Step s t → Turn s t
unfolding record_submitted confirm_precommit confirm_benchmark confirm_proof confirm_verified
    confirm_fraud fail expire_if_due
Step-Turn s t (creates network id owner owner_id from u) =
    create-Turn network id owner owner_id from u
Step-Turn s t (submits network id r which u) =
    transition-Turn network id r _ _ u (submitted-Allows network id which)
Step-Turn s t (confirms_precommit network id r e u) =
    transition-Turn network id r _ _ u (precommit-Allows network id e)
Step-Turn s t (confirms_benchmark network id r e u) =
    transition-Turn network id r _ _ u (benchmark-Allows network id e)
Step-Turn s t (confirms_proof network id r e u) =
    transition-Turn network id r _ _ u (proof-Allows network id e)
Step-Turn s t (confirms_verified network id r b at u) =
    transition-Turn network id r _ _ u (verified-Allows network id b at)
Step-Turn s t (confirms_fraud network id r e u) =
    transition-Turn network id r _ _ u (fraud-Allows network id e)
Step-Turn s t (fails network id r reason block u) =
    ended-Turn network id r failed false reason block u (failed-Allows network id reason block)
Step-Turn s t (expires network id r reason block guarded u) =
    expire_inner-Turn network id r reason block guarded u
Step-Turn s t (sweeps g network id block u) =
    expire_found-Turn network id g block (find network id u) u
Step-Turn s t (others a b e) = leaves e
