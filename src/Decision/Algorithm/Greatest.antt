-- ===== src/Decision/Algorithm/Greatest.antt =====
-- crates/pool-decision/src/algorithm.rs: which algorithm is the best on a track.
use tig_mining_pool_public.Common.{
  ◌≡◌, ◌⊎◌, inl, inr, refl, sym, ap, subst, true, not_gt, Option, some, none, [], ◌∷◌, Result, ok,
  err, Ordering, ◌>>=◌, >>=-eq-ok, ok_inj, In, All,
}
use tig_mining_pool_public.Common.Bytes.{Bytes, cmp, cmp_refl}
use tig_mining_pool_public.Common.Map.{Map}
use tig_mining_pool_public.Common.Sort.{IsAscending}
use tig_mining_pool_public.Decision.Ratio.{Ratio, RatioError, checked_cmp}
use tig_mining_pool_public.Decision.Ratio.Exact.{IsReduced}
use tig_mining_pool_public.Decision.Ratio.Order.{checked_cmp_exact, Verdict}
use tig_mining_pool_public.Decision.Algorithm.Beats.{Beats, IsTop, drop_beaten, same_offers}
use tig_mining_pool_public.Decision.Algorithm.Rates.{Best, by_order, challenge_best, best_from}

abbrev pub AllReduced : Map (Option Ratio) → Type 0
AllReduced [] = Unit
AllReduced ((_, none) ∷ rest) = AllReduced rest
AllReduced ((_, some r) ∷ rest) = IsReduced r × AllReduced rest

-- The keys of a `BTreeMap` come in their order.
abbrev pub by_key : Bytes × Option Ratio → Bytes × Option Ratio → Ordering
by_key a b = cmp a.0 b.0

-- What the search has still to tell apart.
abbrev Offers : Best → Map (Option Ratio) → Bytes → Ratio → Type 0
Offers none rest k g = In (k, some g) rest
Offers (some best) rest k g = (best ≡ (k, g)) ⊎ In (k, some g) rest

abbrev IsReducedBest : Best → Type 0
IsReducedBest none = Unit
IsReducedBest (some best) = IsReduced best.1

abbrev IsBefore : Best → Map (Option Ratio) → Type 0
IsBefore none rest = Unit
IsBefore (some best) rest = All (λ e. not_gt (cmp best.0 e.0) ≡ true) rest

some_inj : {A : Type 0} {a b : A} → ◌≡◌ {A = Option A} (some a) (some b) → a ≡ b
some_inj e = cc

to_entry :
    (id k : Bytes) (r g : Ratio)
    → ◌≡◌ {A = Bytes × Ratio} (id, r) (k, g)
    → ◌≡◌ {A = Bytes × Option Ratio} (k, some g) (id, some r)
to_entry id k r g q = λ i. (sym (ap (λ p. p.0) q) i, some (sym (ap (λ p. p.1) q) i))

of_entry :
    (id k : Bytes) (r g : Ratio)
    → ◌≡◌ {A = Bytes × Option Ratio} (k, some g) (id, some r)
    → ◌≡◌ {A = Bytes × Ratio} (id, r) (k, g)
of_entry id k r g q =
    let e : g ≡ r = some_inj (ap (λ p. p.1) q) in λ i. (sym (ap (λ p. p.0) q) i, sym e i)

skip :
    (k : Bytes) (g : Ratio) (id : Bytes) (rest : Map (Option Ratio))
    → In (k, some g) ((id, none) ∷ rest)
    → In (k, some g) rest
skip k g id rest (inl q) = let e : ◌≡◌ {A = Option Ratio} (some g) none = ap (λ p. p.1) q in cc
skip k g id rest (inr j) = j

at_least : (id k : Bytes) (r g : Ratio) → ◌≡◌ {A = Bytes × Ratio} (id, r) (k, g) → Beats id r k g
at_least id k r g q = inr (sym (ap (λ p. p.1) q), rw (← ap (λ p. p.0) q, cmp_refl id) refl)

-- Two rates are compared exactly, and of equal ones the first stays.
one-Beats :
    (id bid : Bytes) (r br : Ratio) (next : Best)
    → IsReduced r
    → IsReduced br
    → not_gt (cmp bid id) ≡ true
    → challenge_best id (some r) (some (bid, br)) ≡ ok next
    → ((next ≡ some (id, r)) × Beats id r bid br) ⊎ ((next ≡ some (bid, br)) × Beats bid br id r)
unfolding challenge_best
one-Beats id bid r br next hr hb b e =
    by_verdict (checked_cmp r br) (checked_cmp_exact r br hr hb) e
  where
    by_verdict :
        (v : Result RatioError Ordering)
        → Verdict r br v
        → (v >>= λ order. ok (some (by_order id r (bid, br) order))) ≡ ok next
        → ((next ≡ some (id, r)) × Beats id r bid br)
          ⊎ ((next ≡ some (bid, br)) × Beats bid br id r)
    by_verdict (ok Ordering.gt) v q = inl (sym (ok_inj q), inl v)
    by_verdict (ok Ordering.lt) v q = inr (sym (ok_inj q), inl v)
    by_verdict (ok Ordering.eq) v q = inr (sym (ok_inj q), inr (v, b))
    by_verdict (err x) v q = cc

best_from-IsTop :
    (rest : Map (Option Ratio)) (best out : Best)
    → AllReduced rest
    → IsReducedBest best
    → IsAscending by_key rest
    → IsBefore best rest
    → best_from rest best ≡ ok out
    → IsTop (Offers best rest) out
unfolding best_from challenge_best
best_from-IsTop [] none out h hb asc b e = subst (IsTop (Offers none [])) (ok_inj e) (λ k g i. i)
best_from-IsTop [] (some (id, r)) out h hb asc b e =
    subst (IsTop (Offers (some (id, r)) [])) (ok_inj e)
      (inl refl, hb, λ k g i. elim i [ inl q ↦ at_least id k r g q | inr j ↦ absurd j ])
best_from-IsTop ((id, none) ∷ rest) none out h hb asc b e =
    same_offers (Offers none rest) _ out (λ k g i. inr i) (λ k g i. skip k g id rest i)
      (best_from-IsTop rest none out h tt asc.1 tt e)
best_from-IsTop ((id, none) ∷ rest) (some best) out h hb asc b e =
    same_offers (Offers (some best) rest) _ out
      (λ k g i. elim i [ inl q ↦ inl q | inr j ↦ inr (inr j) ])
      (λ k g i. elim i [ inl q ↦ inl q | inr j ↦ inr (skip k g id rest j) ])
      (best_from-IsTop rest (some best) out h hb asc.1 b.1 e)
best_from-IsTop ((id, some r) ∷ rest) none out h hb asc b e =
    same_offers (Offers (some (id, r)) rest) _ out
      (λ k g i. elim i [ inl q ↦ inl (to_entry id k r g q) | inr j ↦ inr j ])
      (λ k g i. elim i [ inl q ↦ inl (of_entry id k r g q) | inr j ↦ inr j ])
      (best_from-IsTop rest (some (id, r)) out h.1 h.0 asc.1 asc.0 e)
best_from-IsTop ((id, some r) ∷ rest) (some (bid, br)) out h hb asc b e =
    let (next, at, e') = >>=-eq-ok (challenge_best id (some r) (some (bid, br))) _ e in
    elim (one-Beats id bid r br next h.0 hb b.0 at) [
      | inl (q, w) ↦
          drop_beaten (Offers (some (id, r)) rest) _ id bid r br out hb w (inl refl)
            (λ k g i. elim i [ inl q ↦ inr (inl (to_entry id k r g q)) | inr j ↦ inr (inr j) ])
            (λ k g i. elim i [
              | inl q ↦ inr (sym (ap (λ p. p.0) q), sym (ap (λ p. p.1) q))
              | inr (inl q) ↦ inl (inl (of_entry id k r g q))
              | inr (inr j) ↦ inl (inr j)
            ])
            (best_from-IsTop rest (some (id, r)) out h.1 h.0 asc.1 asc.0
              (subst (λ n. best_from rest n ≡ ok out) q e'))
      | inr (q, w) ↦
          drop_beaten (Offers (some (bid, br)) rest) _ bid id br r out h.0 w (inl refl)
            (λ k g i. elim i [ inl q ↦ inl q | inr j ↦ inr (inr j) ])
            (λ k g i. elim i [
              | inl q ↦ inl (inl q)
              | inr (inl q) ↦ inr (ap (λ p. p.0) q, some_inj (ap (λ p. p.1) q))
              | inr (inr j) ↦ inl (inr j)
            ])
            (best_from-IsTop rest (some (bid, br)) out h.1 hb asc.1 b.1
              (subst (λ n. best_from rest n ≡ ok out) q e'))
    ]

-- What `best_on_track` and the reported rate of the best say of the rates of one track.
abbrev pub IsGreatest : Map (Option Ratio) → Best → Type 0
IsGreatest rates none = (k : Bytes) (g : Ratio) → ¬ In (k, some g) rates
IsGreatest rates (some (id, r)) =
    In (id, some r) rates × ((k : Bytes) (g : Ratio) → In (k, some g) rates → Beats id r k g)

-- Over rates in lowest terms, in the order of the algorithms' ids, the search that does not
-- overflow ends with an algorithm that has a usable rate, and every usable rate is smaller or is the
-- same rate of an algorithm whose id is not smaller; it ends with none exactly where no rate is
-- usable.
pub best_from-IsGreatest :
    (rates : Map (Option Ratio)) (best : Best)
    → AllReduced rates
    → IsAscending by_key rates
    → best_from rates none ≡ ok best
    → IsGreatest rates best
best_from-IsGreatest rates none h asc e = best_from-IsTop rates none none h tt asc tt e
best_from-IsGreatest rates (some (id, r)) h asc e =
    let (i, _, top) = best_from-IsTop rates none (some (id, r)) h tt asc tt e in (i, top)
