-- ===== src/Workflow/Attempt/Rows.antt =====
-- crates/pool-workflow/src/attempt.rs: what one call does to the rows of the ledger.
use tig_mining_pool_public.Common.{
  ◌+◌, ◌≡◌, inl, inr, refl, Bool, true, false, not, ◌&&◌, Bool-cases, Option-cases, Result-cases,
  Option, none, some, List, ◌∷◌, find?, ok, guard, >>=-eq-ok, ok_inj, leb,
}
use tig_mining_pool_public.Common.Bytes.{Bytes}
use tig_mining_pool_public.Common.Int.{ℤ}
use tig_mining_pool_public.Workflow.Lease.{require_fence}
use tig_mining_pool_public.Workflow.Intent.{WriteIntent, IntentRow}
use tig_mining_pool_public.Workflow.Attempt.{
  AttemptOutcome, AttemptRow, Ledger, AttemptError, is_ambiguous, unavailable,
  precommit_lane_occupied, is_precommit, in_lane,
}
use tig_mining_pool_public.Workflow.Attempt.Begin.{
  has_intent_id, i32_max, is_taken, inserted_for, any_row, free_for, inserted, new_row, last_no,
  begin, begin_fenced,
}
use tig_mining_pool_public.Workflow.Attempt.Resolve.{
  fits, update, is_open, answered, resolve, is_unsettled, settle, reconcile,
}
use tig_mining_pool_public.Workflow.Attempt.Steps.{
  Step, begins, begins_fenced, resolves, reconciles, leases, intents,
}

-- A row that was recorded, and the places that were free for it.
pub record IsNew (attempt_id : Bytes) (l : Ledger) (intent : WriteIntent) (row : AttemptRow)
    : Type 0 where
  pub is_row :
      new_row attempt_id (last_no intent.intent_id l.attempts + 1) l.leases.now intent ≡ row
  pub lane : is_precommit intent.write_kind && any_row (in_lane intent.network) l.attempts ≡ false
  pub bench : free_for intent.network l.attempts intent.benchmark_id ≡ ok tt

pub inserted_for-IsNew :
    (attempt_id : Bytes) (l : Ledger) (intent : WriteIntent) (row : AttemptRow)
    → inserted_for attempt_id l intent ≡ ok row
    → IsNew attempt_id l intent row
inserted_for-IsNew attempt_id l intent row e =
    let n = last_no intent.intent_id l.attempts + 1 in
    let (_, _, e₁) =
      >>=-eq-ok
        (guard (leb n i32_max && not (any_row (is_taken attempt_id) l.attempts)) unavailable) _ e in
    let (_, g, e₂) =
      >>=-eq-ok
        (guard (not (is_precommit intent.write_kind && any_row (in_lane intent.network) l.attempts))
          (precommit_lane_occupied intent.network))
        _ e₁ in
    let (_, f, e₃) = >>=-eq-ok (free_for intent.network l.attempts intent.benchmark_id) _ e₂ in
    record { is_row = ok_inj e₃; lane = guard_free _ _ g; bench = f }
  where
    guard_free : (b : Bool) (e : AttemptError) → guard (not b) e ≡ ok tt → b ≡ false
    guard_free true e g = cc
    guard_free false e g = refl

-- How the rows of attempts change.
pub data Change (l : Ledger) : List AttemptRow → Type 0 where
  none_changes : Change l l.attempts
  is_recorded :
      (attempt_id : Bytes) (intent : WriteIntent) (row : AttemptRow)
      → IsNew attempt_id l intent row
      → Change l (row ∷ l.attempts)
  is_answered :
      (attempt_id : Bytes) (outcome : AttemptOutcome) (status : Option ℤ) (detail : Option Bytes)
      → Change l (update (is_open attempt_id) (answered outcome status detail) l.attempts)
  is_reconciled :
      (attempt_id : Bytes) (settled : AttemptOutcome)
      → is_ambiguous (some settled) ≡ false
      → Change l (update (is_unsettled attempt_id) (settle settled) l.attempts)

begin-Change :
    (attempt_id intent_id : Bytes) (l : Ledger) → Change l (begin attempt_id intent_id l).0.attempts
unfolding begin inserted
begin-Change attempt_id intent_id l = by_row (find? (has_intent_id intent_id) l.intents) refl
  where
    by_row :
        (o : Option IntentRow)
        → find? (has_intent_id intent_id) l.intents ≡ o
        → Change l (begin attempt_id intent_id l).0.attempts
    by_row none q = rw q none_changes
    by_row (some r) q = elim (Result-cases (inserted_for attempt_id l r.intent)) [
      | inl (row, e) ↦
          rw (q, e)
            (is_recorded attempt_id r.intent row (inserted_for-IsNew attempt_id l r.intent row e))
      | inr (_, e) ↦ rw (q, e) none_changes
    ]

pub Step-Change : (l m : Ledger) → Step l m → Change l m.attempts
unfolding begin_fenced resolve reconcile
Step-Change l m (begins attempt_id intent_id _) = begin-Change attempt_id intent_id l
Step-Change l m (begins_fenced attempt_id intent_id lease _) =
    elim (Result-cases (require_fence lease l.leases)) [
      | inl (_, e) ↦ rw e (begin-Change attempt_id intent_id l)
      | inr (_, e) ↦ rw e none_changes
    ]
Step-Change l m (resolves attempt_id outcome status detail _) =
    elim (Option-cases (find? (is_open attempt_id) l.attempts)) [
      | inl q ↦ rw q none_changes
      | inr (row, q) ↦ elim (Bool-cases (fits detail)) [
        | inl f ↦ rw (q, f) (is_answered attempt_id outcome status detail)
        | inr f ↦ rw (q, f) none_changes
      ]
    ]
Step-Change l m (reconciles attempt_id settled _) =
    elim (Bool-cases (is_ambiguous (some settled))) [
      | inl b ↦ rw b none_changes
      | inr b ↦ elim (Option-cases (find? (is_unsettled attempt_id) l.attempts)) [
        | inl q ↦ rw (b, q) none_changes
        | inr (row, q) ↦ rw (b, q) (is_reconciled attempt_id settled b)
      ]
    ]
Step-Change l m (leases _ s step) = none_changes
Step-Change l m (intents _ rows) = none_changes
