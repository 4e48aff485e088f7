-- ===== src/Decision/Source/Winner.antt =====
-- crates/pool-decision/src/source.rs: the order in which the candidates are ranked.
use tig_mining_pool_public.Common.{
  ◌<◌, ◌≡◌, ◌⊎◌, inl, inr, refl, subst, true, is_eq, not_gt, some, List, map, keep, head?,
  Ordering-cases, arith, In, In-keep, keep-In, In-map, map-In,
}
use tig_mining_pool_public.Common.Bytes.{cmp, cmp-swap, cmp-not_gt_trans}
use tig_mining_pool_public.Common.Int.{ℤ, ◌<ℤ◌, compare_ℤ, compare_ℤ-IsComparison, compare_ℤ-eq_iff}
use tig_mining_pool_public.Common.Max.{max?, max?_upper}
use tig_mining_pool_public.Common.Sort.{IsComparison, head?-sort_by, In-sort_by}
use tig_mining_pool_public.Decision.Source.{SourceBenchmark, compare_tied, tied_of}

-- A benchmark `w` with best bundle `q` comes before `b` with best bundle `p`, or ties with it in all
-- that is compared.
abbrev pub Outranks : {V : Type 0} → SourceBenchmark V → ℤ → SourceBenchmark V → ℤ → Type 0
Outranks w q b p =
    (p <ℤ q)
    ⊎ ((p ≡ q)
        × ((b.block_confirmed < w.block_confirmed)
            ⊎ ((b.block_confirmed ≡ w.block_confirmed)
                × (not_gt (cmp w.benchmark_id b.benchmark_id) ≡ true))))

module _ {V : Type 0} where
  compare_tied-IsComparison : IsComparison (compare_tied {V = V})
  unfolding compare_tied
  compare_tied-IsComparison = record {
    swapped = λ a b. ground (arith, cmp-swap a.benchmark_id b.benchmark_id);
    transitive =
        λ x y z h k. ground (arith, cmp-not_gt_trans x.benchmark_id y.benchmark_id z.benchmark_id);
  }

  tied_order :
      (w b : SourceBenchmark V)
      → not_gt (compare_tied w b) ≡ true
      → (b.block_confirmed < w.block_confirmed)
        ⊎ ((b.block_confirmed ≡ w.block_confirmed)
            × (not_gt (cmp w.benchmark_id b.benchmark_id) ≡ true))
  unfolding compare_tied
  tied_order w b h = ground arith

  pub In-tied_of :
      (b : SourceBenchmark V) (q : ℤ) (cs : List (SourceBenchmark V × ℤ))
      → In (b, q) cs
      → In b (tied_of cs q)
  unfolding tied_of
  In-tied_of b q cs i = (In-sort_by compare_tied b _).1 (
      In-map (λ c. c.0) (b, q) _
        (In-keep (λ c. is_eq (compare_ℤ c.1 q)) (b, q) cs i (rw ((compare_ℤ-eq_iff q q).1 refl))))

  tied_of-In :
      (b : SourceBenchmark V) (q : ℤ) (cs : List (SourceBenchmark V × ℤ))
      → In b (tied_of cs q)
      → In (b, q) cs
  unfolding tied_of
  tied_of-In b q cs i =
      let (c, j, e) = map-In (λ c. c.0) b _ ((In-sort_by compare_tied b _).0 i) in
      let (k, f) = keep-In (λ c. is_eq (compare_ℤ c.1 q)) c cs j in
      let pair : c ≡ (b, q) = ground arith in subst (λ x. In x cs) pair k

  -- The first of the tied candidates is the best of all.
  pub first_tied_best :
      (w : SourceBenchmark V) (q : ℤ) (cs : List (SourceBenchmark V × ℤ))
      → max? compare_ℤ (map (λ c. c.1) cs) ≡ some q
      → head? (tied_of cs q) ≡ some w
      → In (w, q) cs × ((b : SourceBenchmark V) (p : ℤ) → In (b, p) cs → Outranks w q b p)
  unfolding tied_of
  first_tied_best w q cs e h = (
    tied_of-In w q cs ((In-sort_by compare_tied w _).1 least.0),
    λ b p i.
        outranks b p i (max?_upper compare_ℤ compare_ℤ-IsComparison q _ e p (In-map _ (b, p) cs i)),
  )
    where
      least :
          In w (map (λ c. c.0) (keep (λ c. is_eq (compare_ℤ c.1 q)) cs))
          × ((b : SourceBenchmark V)
              → In b (map (λ c. c.0) (keep (λ c. is_eq (compare_ℤ c.1 q)) cs))
              → not_gt (compare_tied w b) ≡ true)
      least = head?-sort_by compare_tied compare_tied-IsComparison w _ h

      before :
          (b : SourceBenchmark V) (p : ℤ) → p ≡ q → In (b, p) cs → not_gt (compare_tied w b) ≡ true
      before b p r i =
          least.1 b
            ((In-sort_by compare_tied b _).0 (In-tied_of b q cs (subst (λ z. In (b, z) cs) r i)))

      outranks :
          (b : SourceBenchmark V) (p : ℤ)
          → In (b, p) cs
          → not_gt (compare_ℤ p q) ≡ true
          → Outranks w q b p
      outranks b p i up = elim (Ordering-cases (compare_ℤ p q)) [
        | inl l ↦ inl (ground arith)
        | inr (inl r) ↦
            inr (
              (compare_ℤ-eq_iff p q).0 r,
              tied_order w b (before b p ((compare_ℤ-eq_iff p q).0 r) i),
            )
        | inr (inr g) ↦ absurd (ground arith)
      ]
