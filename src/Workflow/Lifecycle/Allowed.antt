-- ===== src/Workflow/Lifecycle/Allowed.antt =====
-- crates/pool-workflow/src/workflow.rs: each closure that decides a transition allows only moves.
use tig_mining_pool_public.Common.{
  ◌≡◌, refl, sym, Bool, true, false, ◌||◌, some, if◌then◌else◌, Result, ok, >>=-eq-ok, ok_inj,
  guard, fail_if, guard-ok, fail_if-ok, arith,
}
use tig_mining_pool_public.Common.Bytes.{Bytes}
use tig_mining_pool_public.Common.Int.{ℤ}
use tig_mining_pool_public.Gateway.Network.{Network}
use tig_mining_pool_public.Workflow.Attempt.{names}
use tig_mining_pool_public.Workflow.Lifecycle.{
  WorkflowState, decided, precommit_submitted, precommit_confirmed, benchmark_submitted,
  benchmark_confirmed, proof_submitted, proof_confirmed, verified, fraudulent, failed, expired,
  is_terminal, is_state, Workflow, ConfirmedPrecommit, ConfirmedBenchmark, ConfirmedProof,
  ConfirmedFraud, WorkflowError, Fields,
}
use tig_mining_pool_public.Workflow.Lifecycle.Decide.{
  Submitted, submitted_from, submitted_to, reject_member_fault, stopped_reason, benchmark_state,
  unchanged, closing, expect_benchmark, submitted_fields, precommit_fields, benchmark_fields,
  proof_fields, verified_fields, fraud_fields, ended_fields,
}
use tig_mining_pool_public.Workflow.Lifecycle.Moves.{
  Move, submitting, obtaining, computing, stopping, proving, verifying, condemning, failing,
  expiring,
}

module _ {V : Type 0} where
  -- A closure that decides is right where it allows only moves.
  abbrev pub Allows : WorkflowState → (Workflow V → Result WorkflowError (Fields V)) → Type 0
  Allows to decide = (w : Workflow V) (f : Fields V) → decide w ≡ ok f → Move w to f

module _ {V : Type 0} (network : Network) (id : Bytes) where
  pub submitted-Allows :
      (which : Submitted) → Allows {V = V} (submitted_to which) (submitted_fields network id which)
  unfolding submitted_fields
  submitted-Allows which w f e =
      let (_, t, k) = >>=-eq-ok (guard (is_state w.state (submitted_from which)) _) _ e in
      submitting which (of_test which w.state (guard-ok _ _ _ t)) refl (sym (ok_inj k))
    where
      of_test :
          (which : Submitted) (s : WorkflowState)
          → is_state s (submitted_from which) ≡ true
          → s ≡ submitted_from which
      of_test which s h = ground arith

  pub precommit-Allows :
      (e : ConfirmedPrecommit V) → Allows precommit_confirmed (precommit_fields network id e)
  unfolding precommit_fields
  precommit-Allows e w f q =
      let (_, _, r) = >>=-eq-ok (fail_if (is_terminal w.state) _) _ q in
      let (_, t, k) =
        >>=-eq-ok (guard (is_state w.state decided || is_state w.state precommit_submitted) _) _
          r in
      obtaining e (guard-ok _ _ _ t) refl (sym (ok_inj k))

  pub benchmark-Allows :
      (e : ConfirmedBenchmark)
      → Allows {V = V} (benchmark_state e.stopped) (benchmark_fields network id e)
  unfolding benchmark_fields
  benchmark-Allows e w f q =
      let (_, _, r) = >>=-eq-ok (expect_benchmark network id w e.benchmark_id) _ q in
      let (_, _, u) = >>=-eq-ok (fail_if (is_terminal w.state) _) _ r in
      let (_, t, k) =
        >>=-eq-ok
          (guard (is_state w.state precommit_confirmed || is_state w.state benchmark_submitted) _) _
          u in
      by_flag e.stopped (guard-ok _ _ _ t) k
    where
      by_flag :
          (flag : Bool)
          → (is_state w.state precommit_confirmed || is_state w.state benchmark_submitted) ≡ true
          → ◌≡◌ {A = Result WorkflowError (Fields V)}
              (ok (if flag then closing e.block_confirmed (some stopped_reason) else unchanged))
              (ok f)
          → Move w (benchmark_state flag) f
      by_flag true t k = stopping e.block_confirmed t refl (sym (ok_inj k))
      by_flag false t k = computing t refl (sym (ok_inj k))

  pub proof-Allows :
      (e : ConfirmedProof) → Allows {V = V} proof_confirmed (proof_fields network id e)
  unfolding proof_fields
  proof-Allows e w f q =
      let (_, _, r) = >>=-eq-ok (expect_benchmark network id w e.benchmark_id) _ q in
      let (_, _, u) = >>=-eq-ok (fail_if (is_terminal w.state) _) _ r in
      let (_, t, k) =
        >>=-eq-ok
          (guard (is_state w.state benchmark_confirmed || is_state w.state proof_submitted) _) _
          u in
      proving (guard-ok _ _ _ t) refl (sym (ok_inj k))

  pub verified-Allows :
      (benchmark_id : Bytes) (block : ℤ)
      → Allows {V = V} verified (verified_fields network id benchmark_id block)
  unfolding verified_fields
  verified-Allows benchmark_id block w f q =
      let (_, _, r) = >>=-eq-ok (expect_benchmark network id w benchmark_id) _ q in
      let (_, _, u) = >>=-eq-ok (fail_if (is_terminal w.state) _) _ r in
      let (_, t, k) = >>=-eq-ok (guard (is_state w.state proof_confirmed) _) _ u in
      verifying block (guard-ok _ _ _ t) refl (sym (ok_inj k))

  pub fraud-Allows : (e : ConfirmedFraud) → Allows {V = V} fraudulent (fraud_fields network id e)
  unfolding fraud_fields expect_benchmark
  fraud-Allows e w f q =
      let (_, b, r) = >>=-eq-ok (guard (names e.benchmark_id w.benchmark_id) _) _ q in
      let (_, t, k) = >>=-eq-ok (fail_if (is_terminal w.state) _) _ r in
      condemning e.block_confirmed e.benchmark_id (guard-ok _ _ _ b) (fail_if-ok _ _ _ t) refl
        (sym (ok_inj k))

  pub failed-Allows :
      (reason : Bytes) (block : ℤ)
      → reject_member_fault reason ≡ ok tt
      → Allows {V = V} failed (ended_fields network id failed reason block)
  unfolding ended_fields
  failed-Allows reason block m w f q =
      let (_, t, k) = >>=-eq-ok (fail_if (is_terminal w.state) _) _ q in
      failing block reason m (fail_if-ok _ _ _ t) refl (sym (ok_inj k))

  pub expired-Allows :
      (reason : Bytes) (block : ℤ)
      → reject_member_fault reason ≡ ok tt
      → Allows {V = V} expired (ended_fields network id expired reason block)
  unfolding ended_fields
  expired-Allows reason block m w f q =
      let (_, t, k) = >>=-eq-ok (fail_if (is_terminal w.state) _) _ q in
      expiring block reason m (fail_if-ok _ _ _ t) refl (sym (ok_inj k))
