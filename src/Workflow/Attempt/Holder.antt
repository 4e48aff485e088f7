-- ===== src/Workflow/Attempt/Holder.antt =====
-- crates/pool-workflow/src/attempt.rs: the precommit lane of a network, as a lock with one holder.
use tig_mining_pool_public.Common.{
  ◌≤◌, ◌≡◌, ◌⊎◌, inl, inr, refl, Bool, Bool-cases, Option, none, some, List, [], ◌∷◌, map, keep,
  head?, length, arith,
}
use tig_mining_pool_public.Common.Bytes.{Bytes}
use tig_mining_pool_public.Gateway.Network.{Network}
use tig_mining_pool_public.Workflow.Attempt.{AttemptRow, Ledger, in_lane}
use tig_mining_pool_public.Workflow.Attempt.Resolve.{
  update, is_open, answered, is_unsettled, settle,
}
use tig_mining_pool_public.Workflow.Attempt.Steps.{Step, Steps}
use tig_mining_pool_public.Workflow.Attempt.Rows.{
  Change, none_changes, is_recorded, is_answered, is_reconciled, Step-Change,
}
use tig_mining_pool_public.Workflow.Attempt.Lane.{
  count, IsLaned, Leaves, new-in_lane, answered-Leaves, settle-Leaves, Steps-IsLaned,
}

-- The attempts that stand in an index.
abbrev pub ids : (AttemptRow → Bool) → List AttemptRow → List Bytes
ids p rows = map (λ r. r.attempt_id) (keep p rows)

-- The attempt that occupies the lane.
abbrev pub holder : Network → Ledger → Option Bytes
holder network l = head? (ids (in_lane network) l.attempts)

-- The lock: it is taken when it is free, it is given back, and it never changes hands in between.
pub data LaneStep : Option Bytes → Option Bytes → Type 0 where
  idles : (o : Option Bytes) → LaneStep o o
  occupies : (id : Bytes) → LaneStep none (some id)
  reopens : (id : Bytes) → LaneStep (some id) none

length-0 : {A : Type 0} (xs : List A) → length xs ≡ 0 → xs ≡ []
length-0 [] e = refl
length-0 (x ∷ xs) e = absurd (omega arith)

module _ (p q : AttemptRow → Bool) (f : AttemptRow → AttemptRow) (h : Leaves p q f)
    (same_id : (row : AttemptRow) → (f row).attempt_id ≡ row.attempt_id) where
  none_left : (rows : List AttemptRow) → count p rows ≡ 0 → ids p (update q f rows) ≡ []
  none_left [] e = refl
  none_left (row ∷ rows) e = ground (arith, h row, none_left rows)

  pub ids-update :
      (rows : List AttemptRow)
      → count p rows ≤ 1
      → (ids p (update q f rows) ≡ ids p rows) ⊎ (ids p (update q f rows) ≡ [])
  ids-update [] e = inl refl
  ids-update (row ∷ rows) e =
      ground (arith, h row, same_id row, none_left rows, length-0 (keep p rows), ids-update rows)

left : (o : List Bytes) (n : List Bytes) → (n ≡ o) ⊎ (n ≡ []) → LaneStep (head? o) (head? n)
left o n (inl e) = rw e (idles _)
left [] n (inr e) = rw e (idles none)
left (id ∷ o) n (inr e) = rw e (reopens id)

Change-LaneStep :
    (n : Network) (l : Ledger) (rows : List AttemptRow)
    → Change l rows
    → IsLaned l.attempts
    → LaneStep (holder n l) (head? (ids (in_lane n) rows))
Change-LaneStep n l rows none_changes h = idles _
Change-LaneStep n l _ (is_recorded attempt_id intent row new) h =
    elim (Bool-cases (in_lane n row)) [
      | inl q ↦ rw (q, new-in_lane attempt_id l intent row new n q) (occupies row.attempt_id)
      | inr q ↦ rw q (idles _)
    ]
Change-LaneStep n l _ (is_answered id o s d) h = left (ids (in_lane n) l.attempts) _ (
    ids-update (in_lane n) (is_open id) (answered o s d) (answered-Leaves n id o s d) (λ row. refl)
      l.attempts (h.lane n))
Change-LaneStep n l _ (is_reconciled id o e) h = left (ids (in_lane n) l.attempts) _ (
    ids-update (in_lane n) (is_unsettled id) (settle o) (settle-Leaves n id o e) (λ row. refl)
      l.attempts (h.lane n))

-- The ledger implements the lock: after whatever the callers did to a ledger with at most one
-- unresolved attempt in each index, each single call is one step of the lock of a network, so that
-- the lane is taken only while it is free, and no call hands it from one attempt to another.
pub Step-LaneStep :
    (n : Network) (start m l : Ledger)
    → IsLaned start.attempts
    → Steps start m
    → Step m l
    → LaneStep (holder n m) (holder n l)
Step-LaneStep n start m l h before step =
    Change-LaneStep n m l.attempts (Step-Change m l step) (Steps-IsLaned start m before h)
