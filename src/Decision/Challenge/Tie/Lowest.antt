-- ===== src/Decision/Challenge/Tie/Lowest.antt =====
-- crates/pool-decision/src/challenge.rs: what `lowest_factor` keeps.
use mathlib.Core.List.{append_assoc, append-nil}
use tig_mining_pool_public.Common.{
  ◌≡◌, ◌↔◌, ◌⊎◌, inl, inr, refl, sym, ap, subst, Option, some, none, List, [], ◌∷◌, ◌++◌, Result,
  ok, err, Ordering, ◌>>=◌, map_err, >>=-eq-ok, arith, All, In, In-append,
}
use tig_mining_pool_public.Common.Bytes.{Bytes}
use tig_mining_pool_public.Common.Map.{Map}
use tig_mining_pool_public.Decision.Ratio.{Ratio, RatioError, checked_cmp}
use tig_mining_pool_public.Decision.Ratio.Exact.{IsReduced}
use tig_mining_pool_public.Decision.Ratio.Order.{Le, Le_trans, Lt, checked_cmp_exact, Verdict}
use tig_mining_pool_public.Decision.Challenge.Tie.{
  Best, by_order, lower, lowest_from, holders_of, lowest_factor,
}
use tig_mining_pool_public.Decision.Challenge.{ratio}

-- `low` is the least factor of the map, and `ids` are the keys that hold it, of which there is one.
pub record IsLeast (factors : Map Ratio) (low : Ratio) (ids : List Bytes) : Type 0 where
  pub reduced : IsReduced low
  pub least : (id : Bytes) (f : Ratio) → In (id, f) factors → Le low f
  pub holders : (id : Bytes) → In id ids ↔ In (id, low) factors
  pub attained : (id : Bytes) × In id ids

abbrev IsBest : Map Ratio → Best → Type 0
IsBest factors none = factors ≡ []
IsBest factors (some (low, ids)) = IsLeast factors low ids

abbrev after : Map Ratio → Bytes → Ratio → Map Ratio
after seen id f = seen ++ ((id, f) ∷ [])

In-after :
    (seen : Map Ratio) (id k : Bytes) (f g : Ratio)
    → In (k, g) (after seen id f)
    → In (k, g) seen ⊎ ((k ≡ id) × (g ≡ f))
In-after seen id k f g i = elim ((In-append (k, g) seen ((id, f) ∷ [])).0 i) [
  | inl j ↦ inl j
  | inr (inl e) ↦ inr (ap (λ p. p.0) e, ap (λ p. p.1) e)
  | inr (inr j) ↦ absurd j
]

seen-In :
    (seen : Map Ratio) (id : Bytes) (f : Ratio) (e : Bytes × Ratio)
    → In e seen
    → In e (after seen id f)
seen-In seen id f e i = (In-append e seen ((id, f) ∷ [])).1 (inl i)

new-In :
    (seen : Map Ratio) (id k : Bytes) (f g : Ratio) → k ≡ id → g ≡ f → In (k, g) (after seen id f)
new-In seen id k f g p q = (In-append (k, g) seen ((id, f) ∷ [])).1 (inr (inl (λ i. (p i, q i))))

module _ (seen : Map Ratio) (id : Bytes) (f : Ratio) (hf : IsReduced f) where
  only_new : (k : Bytes) → ¬ In (k, f) seen → In k (id ∷ []) ↔ In (k, f) (after seen id f)
  only_new k n = (
    λ i. elim i [ inl p ↦ new-In seen id k f f p refl | inr j ↦ absurd j ],
    λ i. elim (In-after seen id k f f i) [ inl j ↦ absurd (n j) | inr (p, _) ↦ inl p ],
  )

  lower_first : seen ≡ [] → IsLeast (after seen id f) f (id ∷ [])
  lower_first e = record {
    reduced = hf;
    least = λ k g i. elim (In-after seen id k f g i) [
      | inl j ↦ absurd (subst (In (k, g)) e j)
      | inr (_, q) ↦ rw q (omega arith)
    ];
    holders = λ k. only_new k (λ j. subst (In (k, f)) e j);
    attained = (id, inl refl);
  }

  module _ (low : Ratio) (ids : List Bytes) (h : IsLeast seen low ids) where
    lower_below : Lt f low → IsLeast (after seen id f) f (id ∷ [])
    lower_below lt = record {
      reduced = hf;
      least = λ k g i. elim (In-after seen id k f g i) [
        | inl j ↦ Le_trans f low g h.reduced.positive (omega arith) (h.least k g j)
        | inr (_, q) ↦ rw q (omega arith)
      ];
      holders = λ k. only_new k (λ j. let le = h.least k f j in absurd (omega arith));
      attained = (id, inl refl);
    }

    lower_same : f ≡ low → IsLeast (after seen id f) low (ids ++ (id ∷ []))
    lower_same e = record {
      reduced = h.reduced;
      least = λ k g i. elim (In-after seen id k f g i) [
        | inl j ↦ h.least k g j
        | inr (_, q) ↦ rw (q, e) (omega arith)
      ];
      holders = λ k. (
        λ i. elim ((In-append k ids (id ∷ [])).0 i) [
          | inl j ↦ seen-In seen id f (k, low) ((h.holders k).0 j)
          | inr (inl p) ↦ new-In seen id k f low p (sym e)
          | inr (inr j) ↦ absurd j
        ],
        λ i. (In-append k ids (id ∷ [])).1 (elim (In-after seen id k f low i) [
          | inl j ↦ inl ((h.holders k).1 j)
          | inr (p, _) ↦ inr (inl p)
        ]),
      );
      attained = (id, (In-append id ids (id ∷ [])).1 (inr (inl refl)));
    }

    lower_above : Lt low f → IsLeast (after seen id f) low ids
    lower_above lt = record {
      reduced = h.reduced;
      least = λ k g i. elim (In-after seen id k f g i) [
        | inl j ↦ h.least k g j
        | inr (_, q) ↦ rw q (omega arith)
      ];
      holders = λ k. (
        λ j. seen-In seen id f (k, low) ((h.holders k).0 j),
        λ i. elim (In-after seen id k f low i) [
          | inl j ↦ (h.holders k).1 j
          | inr (_, q) ↦ let less = subst (Lt low) (sym q) lt in absurd (omega arith)
        ],
      );
      attained = h.attained;
    }

lower-IsBest :
    (seen : Map Ratio) (id : Bytes) (f : Ratio) (best : Best) {best' : Best}
    → IsReduced f
    → IsBest seen best
    → lower id f best ≡ ok best'
    → IsBest (after seen id f) best'
unfolding lower
lower-IsBest seen id f none {best'} hf h e =
    let q : ◌≡◌ {A = Best} (some (f, id ∷ [])) best' = ground arith in
    subst (IsBest (after seen id f)) q (lower_first seen id f hf h)
lower-IsBest seen id f (some (low, ids)) {best'} hf h e =
    by_verdict (checked_cmp f low) (checked_cmp_exact f low hf h.reduced) e
  where
    by_verdict :
        (r : Result RatioError Ordering)
        → Verdict f low r
        → (r >>= λ order. ok (some (by_order id f low ids order))) ≡ ok best'
        → IsBest (after seen id f) best'
    by_verdict (ok Ordering.lt) v q =
        let p : ◌≡◌ {A = Best} (some (f, id ∷ [])) best' = ground arith in
        subst (IsBest (after seen id f)) p (lower_below seen id f hf low ids h v)
    by_verdict (ok Ordering.eq) v q =
        let p : ◌≡◌ {A = Best} (some (low, ids ++ (id ∷ []))) best' = ground arith in
        subst (IsBest (after seen id f)) p (lower_same seen id f hf low ids h v)
    by_verdict (ok Ordering.gt) v q =
        let p : ◌≡◌ {A = Best} (some (low, ids)) best' = ground arith in
        subst (IsBest (after seen id f)) p (lower_above seen id f hf low ids h v)
    by_verdict (err x) v q = cc

abbrev pub AllReduced : Map Ratio → Type 0
AllReduced = All (λ e. IsReduced e.1)

lowest_from-IsBest :
    (rest seen : Map Ratio) (best best' : Best)
    → AllReduced rest
    → IsBest seen best
    → lowest_from rest best ≡ ok best'
    → IsBest (seen ++ rest) best'
unfolding lowest_from
lowest_from-IsBest [] seen best best' hr h e =
    let q : best ≡ best' = ground arith in
    subst (λ m. IsBest m best') (sym (append-nil seen)) (subst (IsBest seen) q h)
lowest_from-IsBest ((id, f) ∷ rest) seen best best' hr h e =
    let (next, e', e'') = >>=-eq-ok (lower id f best) _ e in
    subst (λ m. IsBest m best') (append_assoc seen ((id, f) ∷ []) rest)
      (lowest_from-IsBest rest (after seen id f) next best' hr.1
        (lower-IsBest seen id f best hr.0 h e') e'')

-- What `lowest_factor` returns: nothing for no factors, and otherwise the holders of the least.
abbrev pub Finds : Map Ratio → Option (List Bytes) → Type 0
Finds factors none = factors ≡ []
Finds factors (some ids) = (low : Ratio) × IsLeast factors low ids

-- Over factors in lowest terms a result names exactly the challenges that have the least of the
-- factors, and at least one of them; there is no such result only where there is no factor.
pub lowest_factor_least :
    (factors : Map Ratio) (found : Option (List Bytes))
    → AllReduced factors
    → lowest_factor factors ≡ ok found
    → Finds factors found
unfolding lowest_factor
lowest_factor_least factors found hr e =
    let (best, e', e'') = map_err-inv (lowest_from factors none) e in
    subst (Finds factors) e'' (to_found best (lowest_from-IsBest factors [] none best hr refl e'))
  where
    to_found : (best : Best) → IsBest factors best → Finds factors (holders_of best)
    to_found none h = h
    to_found (some (low, ids)) h = (low, h)

    map_err-inv :
        (r : Result RatioError Best)
        → (map_err ratio r >>= λ best. ok (holders_of best)) ≡ ok found
        → (best : Best) × (r ≡ ok best) × (holders_of best ≡ found)
    map_err-inv (ok best) q = (best, refl, ground arith)
    map_err-inv (err x) q = cc
