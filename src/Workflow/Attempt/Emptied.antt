-- ===== src/Workflow/Attempt/Emptied.antt =====
-- crates/pool-workflow/src/attempt.rs: how the rows of one attempt leave the lane.
use tig_mining_pool_public.Common.{
  ◌≤◌, ◌≡◌, ◌≢◌, ◌⊎◌, inl, inr, refl, subst, Bool, true, false, ◌&&◌, Option-cases, Option, some,
  List, [], ◌∷◌, if◌then◌else◌, keep, head?, find?, find?-none, In, map-In, keep-In, arith,
}
use tig_mining_pool_public.Common.Bytes.{Bytes, same, cmp-eq_iff}
use tig_mining_pool_public.Common.Int.{ℤ}
use tig_mining_pool_public.Gateway.Network.{Network}
use tig_mining_pool_public.Workflow.Attempt.{
  AttemptOutcome, AttemptRow, Ledger, in_lane, is_ambiguous, is_unresolved,
}
use tig_mining_pool_public.Workflow.Attempt.Resolve.{
  update, fits, is_open, answered, is_unsettled, settle, resolve, reconcile,
}
use tig_mining_pool_public.Workflow.Attempt.Lane.{
  count, count-update, answered-Leaves, settle-Leaves,
}
use tig_mining_pool_public.Workflow.Attempt.Holder.{ids, ids-update}

-- No attempt of this identifier lacks an outcome.
abbrev pub HasOutcome : Bytes → List AttemptRow → Type 0
HasOutcome id rows = (r : AttemptRow) → In r rows → is_open id r ≡ false

abbrev pub IsSettled : Bytes → List AttemptRow → Type 0
IsSettled id rows =
    (r : AttemptRow) → In r rows → same r.attempt_id id && is_unresolved r.outcome ≡ false

map_all :
    (p : AttemptRow → Bool) (f : AttemptRow → AttemptRow) (rows : List AttemptRow)
    (P : AttemptRow → Type 0)
    → ((r : AttemptRow) → In r rows → P (if p r then f r else r))
    → (r : AttemptRow) → In r (update p f rows)
    → P r
map_all p f rows P h r i =
    let (x, j, e) = map-In (λ r. if p r then f r else r) r rows i in subst P e (h x j)

pub resolve-HasOutcome :
    (id : Bytes) (o : AttemptOutcome) (status : Option ℤ) (detail : Option Bytes) (l : Ledger)
    → fits detail ≡ true
    → HasOutcome id (resolve id o status detail l).0.attempts
unfolding resolve
resolve-HasOutcome id o status detail l f = elim (Option-cases (find? (is_open id) l.attempts)) [
  | inl q ↦ rw q (find?-none (is_open id) l.attempts q)
  | inr (row, q) ↦
      rw (q, f)
        (map_all (is_open id) _ l.attempts (λ r. is_open id r ≡ false) (λ r _. ground arith))
]

pub reconcile-IsSettled :
    (id : Bytes) (o : AttemptOutcome) (l : Ledger)
    → is_ambiguous (some o) ≡ false
    → HasOutcome id l.attempts
    → IsSettled id (reconcile id o l).0.attempts
unfolding reconcile
reconcile-IsSettled id o l e h = elim (Option-cases (find? (is_unsettled id) l.attempts)) [
  | inl q ↦ rw (e, q) (λ r i. ground (arith, h r i, find?-none (is_unsettled id) l.attempts q r i))
  | inr (row, q) ↦
      rw (e, q)
        (map_all (is_unsettled id) _ l.attempts
          (λ r. same r.attempt_id id && is_unresolved r.outcome ≡ false)
          (λ r i. ground (arith, h r i)))
]

-- Nothing new stands in the index.
abbrev pub Shrinks : (AttemptRow → Bool) → List AttemptRow → List AttemptRow → Type 0
Shrinks p rows new = (ids p new ≡ ids p rows) ⊎ (ids p new ≡ [])

module _ (n : Network) (id : Bytes) where
  pub resolve-Shrinks :
      (o : AttemptOutcome) (s : Option ℤ) (d : Option Bytes) (l : Ledger)
      → count (in_lane n) l.attempts ≤ 1
      → fits d ≡ true
      → Shrinks (in_lane n) l.attempts (resolve id o s d l).0.attempts
        × (count (in_lane n) (resolve id o s d l).0.attempts ≤ 1)
  unfolding resolve
  resolve-Shrinks o s d l c f = elim (Option-cases (find? (is_open id) l.attempts)) [
    | inl q ↦ rw q (inl refl, c)
    | inr (row, q) ↦
        rw (q, f)
          (
            ids-update (in_lane n) (is_open id) (answered o s d) (answered-Leaves n id o s d)
                (λ r. refl) l.attempts c,
            omega (
              arith,
              count-update (in_lane n) (is_open id) (answered o s d) (answered-Leaves n id o s d)
                  l.attempts,
            ),
          )
  ]

  pub reconcile-Shrinks :
      (o : AttemptOutcome) (l : Ledger)
      → count (in_lane n) l.attempts ≤ 1
      → is_ambiguous (some o) ≡ false
      → Shrinks (in_lane n) l.attempts (reconcile id o l).0.attempts
  unfolding reconcile
  reconcile-Shrinks o l c e = elim (Option-cases (find? (is_unsettled id) l.attempts)) [
    | inl q ↦ rw (e, q) (inl refl)
    | inr (row, q) ↦
        rw (e, q)
          (ids-update (in_lane n) (is_unsettled id) (settle o) (settle-Leaves n id o e) (λ r. refl)
            l.attempts c)
  ]

pub settled-empty :
    (n : Network) (id : Bytes) (rows : List AttemptRow)
    → IsSettled id rows
    → head? (ids (in_lane n) rows) ≢ some id
settled-empty n id rows s h =
    let (r, i, e) = map-In (λ r. r.attempt_id) id (keep (in_lane n) rows) (head-In _ h) in
    let (j, q) = keep-In (in_lane n) r rows i in
    let t = (cmp-eq_iff r.attempt_id id).1 e in absurd (ground (arith, s r j))
  where
    head-In : (xs : List Bytes) → head? xs ≡ some id → In id xs
    head-In [] e = cc
    head-In (x ∷ xs) e = inl (ground arith)
