-- ===== src/Workflow/Attempt/Lane.antt =====
-- crates/pool-workflow/src/attempt.rs: at most one unresolved write at a time.
use tig_mining_pool_public.Common.{
  ℕ, ◌≤◌, ◌≡◌, inl, inr, refl, sym, subst, Bool, true, false, Bool-cases, Option, none, some, List,
  [], ◌∷◌, keep, length, ok, arith,
}
use tig_mining_pool_public.Common.Bytes.{Bytes, cmp-eq_iff}
use tig_mining_pool_public.Common.Int.{ℤ}
use tig_mining_pool_public.Gateway.Network.{Network, is_same}
use tig_mining_pool_public.Workflow.Intent.{WriteIntent}
use tig_mining_pool_public.Workflow.Attempt.{
  AttemptOutcome, AttemptRow, Ledger, is_ambiguous, in_lane, in_flight, names,
}
use tig_mining_pool_public.Workflow.Attempt.Begin.{any_row, free_for}
use tig_mining_pool_public.Workflow.Attempt.Resolve.{
  update, is_open, answered, is_unsettled, settle,
}
use tig_mining_pool_public.Workflow.Attempt.Steps.{Steps, stays, goes}
use tig_mining_pool_public.Workflow.Attempt.Rows.{
  IsNew, Change, none_changes, is_recorded, is_answered, is_reconciled, Step-Change,
}

abbrev pub count : (AttemptRow → Bool) → List AttemptRow → ℕ
count p rows = length (keep p rows)

-- One unresolved precommit to a network, and one unresolved write to a benchmark.
pub record IsLaned (rows : List AttemptRow) : Type 0 where
  pub lane : (network : Network) → count (in_lane network) rows ≤ 1
  pub bench : (network : Network) (id : Bytes) → count (in_flight network id) rows ≤ 1

pub none-count :
    (p : AttemptRow → Bool) (rows : List AttemptRow) → any_row p rows ≡ false → keep p rows ≡ []
none-count p [] h = refl
none-count p (row ∷ rows) h = ground (arith, none-count p rows)

-- An UPDATE that only takes rows out of an index.
abbrev pub Leaves : (AttemptRow → Bool) → (AttemptRow → Bool) → (AttemptRow → AttemptRow) → Type 0
Leaves p q f = (row : AttemptRow) → q row ≡ true → p (f row) ≡ true → p row ≡ true

module _ (p q : AttemptRow → Bool) (f : AttemptRow → AttemptRow) (h : Leaves p q f) where
  pub count-update : (rows : List AttemptRow) → count p (update q f rows) ≤ count p rows
  count-update [] = omega arith
  count-update (row ∷ rows) = ground (arith, h row, count-update rows)

is_same_eq : (a b : Network) → is_same a b ≡ true → a ≡ b
is_same_eq a b h = ground arith

free-in_flight :
    (n : Network) (id : Bytes) (rows : List AttemptRow) (o : Option Bytes)
    → free_for n rows o ≡ ok tt
    → names id o ≡ true
    → any_row (in_flight n id) rows ≡ false
free-in_flight n id rows none f h = cc
free-in_flight n id rows (some other) f h = elim (Bool-cases (any_row (in_flight n other) rows)) [
  | inl q ↦ let g = rw q at f in cc
  | inr q ↦
      subst (λ k. any_row (in_flight n k) rows ≡ false) ((cmp-eq_iff other id).0 (ground arith)) q
]

module _ (attempt_id : Bytes) (l : Ledger) (intent : WriteIntent) (row : AttemptRow)
    (new : IsNew attempt_id l intent row) where
  pub new-in_lane : (n : Network) → in_lane n row ≡ true → keep (in_lane n) l.attempts ≡ []
  new-in_lane n h =
      let t = subst (λ r. in_lane n r ≡ true) (sym new.is_row) h in
      let e : intent.network ≡ n = is_same_eq intent.network n (ground arith) in
      let free : any_row (in_lane intent.network) l.attempts ≡ false = ground (arith, new.lane) in
      none-count (in_lane n) l.attempts (subst (λ k. any_row (in_lane k) l.attempts ≡ false) e free)

  new-in_flight :
      (n : Network) (id : Bytes) → in_flight n id row ≡ true → keep (in_flight n id) l.attempts ≡ []
  new-in_flight n id h =
      let t = subst (λ r. in_flight n id r ≡ true) (sym new.is_row) h in
      let e : intent.network ≡ n = is_same_eq intent.network n (ground arith) in
      none-count (in_flight n id) l.attempts (
        subst (λ k. any_row (in_flight k id) l.attempts ≡ false) e
          (free-in_flight intent.network id l.attempts intent.benchmark_id new.bench
            (ground arith)))

count-new :
    (p : AttemptRow → Bool) (row : AttemptRow) (rows : List AttemptRow)
    → (p row ≡ true → keep p rows ≡ [])
    → count p rows ≤ 1
    → count p (row ∷ rows) ≤ 1
count-new p row rows f h = elim (Bool-cases (p row)) [
  | inl q ↦ rw (q, f q) (omega arith)
  | inr q ↦ rw q h
]

-- What a call records as an outcome takes a row out of the indexes or leaves it there.
pub answered-Leaves :
    (n : Network) (id : Bytes) (o : AttemptOutcome) (s : Option ℤ) (d : Option Bytes)
    → Leaves (in_lane n) (is_open id) (answered o s d)
answered-Leaves n id o s d row q h = ground arith

pub settle-Leaves :
    (n : Network) (id : Bytes) (o : AttemptOutcome)
    → is_ambiguous (some o) ≡ false
    → Leaves (in_lane n) (is_unsettled id) (settle o)
settle-Leaves n id o e row q h = ground arith

Change-IsLaned :
    (l : Ledger) (rows : List AttemptRow) → Change l rows → IsLaned l.attempts → IsLaned rows
Change-IsLaned l rows none_changes h = h
Change-IsLaned l _ (is_recorded attempt_id intent row new) h = record {
  lane = λ n.
      count-new (in_lane n) row l.attempts (new-in_lane attempt_id l intent row new n) (h.lane n);
  bench = λ n id.
      count-new (in_flight n id) row l.attempts (new-in_flight attempt_id l intent row new n id)
        (h.bench n id);
}
Change-IsLaned l _ (is_answered id o s d) h = record {
  lane = λ n. omega (
    arith,
    h.lane n,
    count-update (in_lane n) (is_open id) (answered o s d) (answered-Leaves n id o s d) l.attempts,
  );
  bench = λ n b. omega (
    arith,
    h.bench n b,
    count-update (in_flight n b) (is_open id) (answered o s d) (λ row q p. ground arith) l.attempts,
  );
}
Change-IsLaned l _ (is_reconciled id o e) h = record {
  lane = λ n. omega (
    arith,
    h.lane n,
    count-update (in_lane n) (is_unsettled id) (settle o) (settle-Leaves n id o e) l.attempts,
  );
  bench = λ n b. omega (
    arith,
    h.bench n b,
    count-update (in_flight n b) (is_unsettled id) (settle o) (λ row q p. ground arith) l.attempts,
  );
}

-- In every ledger that can be reached from one with at most one unresolved precommit attempt for each
-- network and at most one unresolved attempt for each benchmark of a network, this is still so,
-- whatever the callers do; an attempt is unresolved without an outcome and with an ambiguous one.
pub Steps-IsLaned : (start l : Ledger) → Steps start l → IsLaned start.attempts → IsLaned l.attempts
Steps-IsLaned start l stays h = h
Steps-IsLaned start l (goes m _ before step) h =
    Change-IsLaned m l.attempts (Step-Change m l step) (Steps-IsLaned start m before h)
