-- ===== src/Workflow/Attempt/Reopened.antt =====
-- crates/pool-workflow/src/attempt.rs: a lane that is occupied can be reopened.
use tig_mining_pool_public.Common.{
  ◌+◌, ◌≤◌, ◌≡◌, inl, inr, refl, sym, ap, ◌∙◌, subst, Bool, true, false, not, ◌&&◌, leb, Option,
  none, some, List, [], ◌∷◌, head?, find?, ok, arith,
}
use tig_mining_pool_public.Common.Bytes.{Bytes}
use tig_mining_pool_public.Common.Int.{ℤ}
use tig_mining_pool_public.Gateway.Network.{Network, is_same}
use tig_mining_pool_public.Workflow.Intent.{IntentRow, precommit}
use tig_mining_pool_public.Workflow.Attempt.{
  AttemptOutcome, AttemptRow, Ledger, WriteAttempt, in_lane, is_ambiguous,
}
use tig_mining_pool_public.Workflow.Attempt.Begin.{
  has_intent_id, inserted, begin, any_row, is_taken, last_no, i32_max,
}
use tig_mining_pool_public.Workflow.Attempt.Resolve.{fits, resolve, reconcile}
use tig_mining_pool_public.Workflow.Attempt.Lane.{count}
use tig_mining_pool_public.Workflow.Attempt.Holder.{ids, holder}
use tig_mining_pool_public.Workflow.Attempt.Emptied.{
  resolve-HasOutcome, reconcile-IsSettled, settled-empty, resolve-Shrinks, reconcile-Shrinks,
}

-- The calls that reopen a lane.
abbrev pub reopened :
    Bytes → AttemptOutcome → Option ℤ → Option Bytes → AttemptOutcome → Ledger → Ledger
reopened id o s d settled l = (reconcile id settled (resolve id o s d l).0).0

-- Recording a response for the holder and then settling it leaves the lane without a holder.
reopened-IsFree :
    (n : Network) (id : Bytes) (o settled : AttemptOutcome) (s : Option ℤ) (d : Option Bytes)
    (l : Ledger)
    → count (in_lane n) l.attempts ≤ 1
    → holder n l ≡ some id
    → fits d ≡ true
    → is_ambiguous (some settled) ≡ false
    → holder n (reopened id o s d settled l) ≡ none
reopened-IsFree n id o settled s d l c h f e =
    let (one, c') = resolve-Shrinks n id o s d l c f in
    let two = reconcile-Shrinks n id settled (resolve id o s d l).0 c' e in
    let done =
      reconcile-IsSettled id settled (resolve id o s d l).0 e (resolve-HasOutcome id o s d l f) in
    let full = settled-empty n id _ done in
    elim two [
      | inl q ↦ elim one [ inl p ↦ absurd (full (ap head? (q ∙ p) ∙ h)) | inr p ↦ ap head? (q ∙ p) ]
      | inr q ↦ ap head? q
    ]

empty_lane :
    (p : AttemptRow → Bool) (rows : List AttemptRow)
    → head? (ids p rows) ≡ none
    → any_row p rows ≡ false
empty_lane p [] h = refl
empty_lane p (r ∷ rows) h = ground (arith, empty_lane p rows)

is_same_refl : (n : Network) → is_same n n ≡ true
is_same_refl n = ground arith

module _ (attempt_id intent_id : Bytes) (l : Ledger) (row : IntentRow)
    (recorded : find? (has_intent_id intent_id) l.intents ≡ some row)
    (kind : row.intent.write_kind ≡ precommit) (unbound : row.intent.benchmark_id ≡ none)
    (numbered : leb (last_no row.intent.intent_id l.attempts + 1) i32_max
        && not (any_row (is_taken attempt_id) l.attempts)
      ≡ true) where
  begin-free :
      any_row (in_lane row.intent.network) l.attempts ≡ false
      → ((attempt : WriteAttempt) × ((begin attempt_id intent_id l).1 ≡ ok attempt))
        × (holder row.intent.network (begin attempt_id intent_id l).0 ≡ some attempt_id)
  unfolding begin inserted
  begin-free free =
      rw (recorded, numbered, kind, free, unbound)
        ((_, refl), rw (is_same_refl row.intent.network) refl)

-- A lane that one attempt occupies can be reopened: whatever is known of the attempt, recording a
-- response for it, with any outcome and no detail or one of at most 200 characters, and then settling
-- it with an outcome that is not ambiguous leaves the lane free; and what `begin` is then asked for a
-- recorded precommit intent of that network that names no benchmark, with a new identifier and a
-- number that is an `i32`, is recorded and occupies the lane.
pub reopened-begins :
    (n : Network) (id attempt_id intent_id : Bytes) (o settled : AttemptOutcome) (s : Option ℤ)
    (d : Option Bytes) (l : Ledger) (row : IntentRow)
    → count (in_lane n) l.attempts ≤ 1
    → holder n l ≡ some id
    → fits d ≡ true
    → is_ambiguous (some settled) ≡ false
    → find? (has_intent_id intent_id) (reopened id o s d settled l).intents ≡ some row
    → row.intent.network ≡ n
    → row.intent.write_kind ≡ precommit
    → row.intent.benchmark_id ≡ none
    → leb (last_no row.intent.intent_id (reopened id o s d settled l).attempts + 1) i32_max
        && not (any_row (is_taken attempt_id) (reopened id o s d settled l).attempts)
      ≡ true
    → (holder n (reopened id o s d settled l) ≡ none)
      × ((attempt : WriteAttempt) × ((begin attempt_id intent_id (reopened id o s d settled l)).1
            ≡ ok attempt))
      × (holder n (begin attempt_id intent_id (reopened id o s d settled l)).0 ≡ some attempt_id)
reopened-begins n id attempt_id intent_id o settled s d l row c h f e q net kind bench number =
    let free = reopened-IsFree n id o settled s d l c h f e in
    let unoccupied : any_row (in_lane row.intent.network) (reopened id o s d settled l).attempts
        ≡ false =
      subst (λ k. any_row (in_lane k) (reopened id o s d settled l).attempts ≡ false) (sym net)
        (empty_lane (in_lane n) (reopened id o s d settled l).attempts free) in
    let (began, held) =
      begin-free attempt_id intent_id (reopened id o s d settled l) row q kind bench number
        unoccupied in
    (
      free,
      began,
      subst
          (λ k.
            holder k (begin attempt_id intent_id (reopened id o s d settled l)).0 ≡ some attempt_id)
          net held,
    )
