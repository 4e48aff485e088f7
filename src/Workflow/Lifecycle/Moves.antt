-- ===== src/Workflow/Lifecycle/Moves.antt =====
-- crates/pool-workflow/src/workflow.rs: what a call can do to the rows, and that a call does no more.
use tig_mining_pool_public.Common.{
  ℕ, ◌≡◌, sym, Bool, true, false, ◌&&◌, ◌||◌, none, some, [], Result, ok, ok_or, ok_or-ok, subst,
  ◌==◌, >>=-eq-ok, ok_inj, guard, fail_if, guard-ok, fail_if-ok, arith,
}
use tig_mining_pool_public.Common.Bytes.{Bytes}
use tig_mining_pool_public.Common.Int.{ℤ}
use tig_mining_pool_public.Common.Map.{or_default}
use tig_mining_pool_public.Gateway.Network.{Network}
use tig_mining_pool_public.Workflow.Attempt.{names}
use tig_mining_pool_public.Workflow.Attempt.Queries.{unsettled_write_exists}
use tig_mining_pool_public.Workflow.Lifecycle.{
  WorkflowState, decided, precommit_submitted, precommit_confirmed, benchmark_submitted,
  benchmark_confirmed, proof_submitted, proof_confirmed, verified, stopped, fraudulent, failed,
  expired, is_terminal, is_state, Workflow, ConfirmedPrecommit, WorkflowError, unavailable,
  not_found, stale_revision, benchmark_already_claimed, write_in_flight, Fields, Db,
}
use tig_mining_pool_public.Workflow.Lifecycle.Table.{
  find, is_valid, may_follow, is_claimed, updated, write, transition_guarded,
}
use tig_mining_pool_public.Workflow.Lifecycle.Decide.{
  Submitted, submitted_from, submitted_to, reject_member_fault, stopped_reason, fraud_reason,
  unchanged, closing,
}

module _ {V : Type 0} where
  abbrev pub precommit_evidence : ConfirmedPrecommit V → Fields V
  precommit_evidence e = record unchanged {
    benchmark_id = some e.benchmark_id;
    block_started = some e.block_started;
    confirmed_num_nonces = e.num_nonces;
    confirmed = some (e.track_id, e.settings, e.block_confirmed);
  }

  -- The states that a transition joins, with the fields that it sets and what allows it.
  pub data Move (w : Workflow V) (to : WorkflowState) (f : Fields V) : Type 0 where
    submitting :
        (which : Submitted)
        → w.state ≡ submitted_from which
        → to ≡ submitted_to which
        → f ≡ unchanged
        → Move w to f
    obtaining :
        (e : ConfirmedPrecommit V)
        → (is_state w.state decided || is_state w.state precommit_submitted) ≡ true
        → to ≡ precommit_confirmed
        → f ≡ precommit_evidence e
        → Move w to f
    computing :
        (is_state w.state precommit_confirmed || is_state w.state benchmark_submitted) ≡ true
        → to ≡ benchmark_confirmed
        → f ≡ unchanged
        → Move w to f
    stopping :
        (block : ℤ)
        → (is_state w.state precommit_confirmed || is_state w.state benchmark_submitted) ≡ true
        → to ≡ stopped
        → f ≡ closing block (some stopped_reason)
        → Move w to f
    proving :
        (is_state w.state benchmark_confirmed || is_state w.state proof_submitted) ≡ true
        → to ≡ proof_confirmed
        → f ≡ unchanged
        → Move w to f
    verifying :
        (block : ℤ)
        → is_state w.state proof_confirmed ≡ true
        → to ≡ verified
        → f ≡ closing block none
        → Move w to f
    condemning :
        (block : ℤ) (id : Bytes)
        → names id w.benchmark_id ≡ true
        → is_terminal w.state ≡ false
        → to ≡ fraudulent
        → f ≡ closing block (some fraud_reason)
        → Move w to f
    failing :
        (block : ℤ) (reason : Bytes)
        → reject_member_fault reason ≡ ok tt
        → is_terminal w.state ≡ false
        → to ≡ failed
        → f ≡ closing block (some reason)
        → Move w to f
    expiring :
        (block : ℤ) (reason : Bytes)
        → reject_member_fault reason ≡ ok tt
        → is_terminal w.state ≡ false
        → to ≡ expired
        → f ≡ closing block (some reason)
        → Move w to f

  -- What a transition that came out well has gone through.
  pub record Written (network : Network) (id : Bytes) (revision : ℕ) (to : WorkflowState)
      (decide : Workflow V → Result WorkflowError (Fields V)) (s : Db V) (new : Workflow V)
      : Type 0 where
    pub current : Workflow V
    pub fields : Fields V
    pub found : find network id s ≡ some current
    pub at_revision : current.revision ≡ revision
    pub decided_on : decide current ≡ ok fields
    pub follows : may_follow current new ≡ true
    pub valid : is_valid new ≡ true
    pub unclaimed : is_claimed new s ≡ false
    pub row : new ≡ updated to fields current

  pub transition_guarded-Written :
      (network : Network) (id : Bytes) (revision : ℕ) (to : WorkflowState) (guarded : Bool)
      (decide : Workflow V → Result WorkflowError (Fields V)) (s : Db V) (new : Workflow V)
      → transition_guarded network id revision to guarded decide s ≡ ok new
      → Written network id revision to decide s new
  unfolding transition_guarded write
  transition_guarded-Written network id revision to guarded decide s new e =
      let (current, q, e₁) = >>=-eq-ok (ok_or (find network id s) (not_found network id)) _ e in
      let (_, r, e₂) =
        >>=-eq-ok
          (guard (current.revision == revision)
            (stale_revision network id revision current.revision))
          _ e₁ in
      let (fields, d, e₃) = >>=-eq-ok (decide current) _ e₂ in
      let (_, _, e₄) =
        >>=-eq-ok
          (fail_if (guarded && unsettled_write_exists network id s.ledger)
            (write_in_flight network id))
          _ e₃ in
      let next = updated to fields current in
      let (_, v, e₅) =
        >>=-eq-ok (guard (may_follow current next && is_valid next) unavailable) _ e₄ in
      let (_, c, e₆) =
        >>=-eq-ok
          (fail_if (is_claimed next s)
            (benchmark_already_claimed current.network (or_default [] fields.benchmark_id)))
          _ e₅ in
      let same_row = ok_inj e₆ in
      let both = guard-ok _ _ _ v in
      record {
        current = current;
        fields = fields;
        found = ok_or-ok _ _ q;
        at_revision = eq_of_test _ _ (guard-ok _ _ _ r);
        decided_on = d;
        follows = subst (λ x. may_follow current x ≡ true) same_row (first_of _ _ both);
        valid = subst (λ x. is_valid x ≡ true) same_row (second_of _ _ both);
        unclaimed = subst (λ x. is_claimed x s ≡ false) same_row (fail_if-ok _ _ _ c);
        row = sym same_row;
      }
    where
      eq_of_test : (a b : ℕ) → (a == b) ≡ true → a ≡ b
      eq_of_test a b h = ground arith

      first_of : (a b : Bool) → (a && b) ≡ true → a ≡ true
      first_of a b h = ground arith

      second_of : (a b : Bool) → (a && b) ≡ true → b ≡ true
      second_of a b h = ground arith
