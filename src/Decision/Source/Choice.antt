-- ===== src/Decision/Source/Choice.antt =====
-- crates/pool-decision/src/source.rs: what `select_source` returns.
use tig_mining_pool_public.Common.{
  ◌≡◌, ◌⊎◌, inl, inr, sym, ap, ◌∙◌, subst, some, none, List, [], map, head?, Result, ok, err,
  Option-cases, arith, In, In-map, map-In, head?-some, Result-cases,
}
use tig_mining_pool_public.Common.Int.{ℤ, compare_ℤ}
use tig_mining_pool_public.Common.Map.{get}
use tig_mining_pool_public.Common.Max.{max?, max?-In, max?-some}
use tig_mining_pool_public.Common.Sift.{
  sift, kept_passed, passed-Passes, Passes-passed, IsDistinct, excluded_reason, reason,
}
use tig_mining_pool_public.Decision.Source.{
  SourceBenchmark, SourceExcluded, SourceSelectionInput, SourceSelection, filter_benchmark, tied_of,
  select_from, select_source,
}
use tig_mining_pool_public.Decision.Source.Filters.{
  IsEligible, filter-IsEligible, IsEligible-filter, FailsFor, filter-FailsFor,
}
use tig_mining_pool_public.Decision.Source.Winner.{Outranks, In-tied_of, first_tied_best}

module _ {V : Type 0} where
  -- What a selection says where a benchmark is eligible: the settings of the best one.
  pub record IsBest (input : SourceSelectionInput V) (s : SourceSelection V) (w : SourceBenchmark V)
      (q : ℤ) : Type 0 where
    pub offered : In w input.active_benchmarks
    pub eligible : IsEligible input.selected_algorithm input.track w q
    pub chosen : s.source_benchmark ≡ some w.benchmark_id
    pub copied : s.hyperparameters ≡ w.hyperparameters
    pub fuel : s.fuel_budget ≡ some w.fuel_budget
    pub quality : s.highest_quality ≡ some q
    pub best :
        (b : SourceBenchmark V) (p : ℤ)
        → In b input.active_benchmarks
        → IsEligible input.selected_algorithm input.track b p
        → Outranks w q b p

  -- What it says where none is.
  pub record IsWithout (input : SourceSelectionInput V) (s : SourceSelection V) : Type 0 where
    pub unchosen : s.source_benchmark ≡ none
    pub uncopied : s.hyperparameters ≡ []
    pub no_fuel : s.fuel_budget ≡ none
    pub no_quality : s.highest_quality ≡ none
    pub none_eligible :
        (b : SourceBenchmark V) (p : ℤ)
        → In b input.active_benchmarks
        → ¬ IsEligible input.selected_algorithm input.track b p

  module _ (input : SourceSelectionInput V) where
    open input use {selected_algorithm as algorithm, track, active_benchmarks}

    abbrev candidates : List (SourceBenchmark V × ℤ)
    candidates =
        (sift (λ b. b.benchmark_id) (filter_benchmark algorithm track) active_benchmarks).kept

    filter_same :
        (a b : SourceBenchmark V) (p : ℤ) → filter_benchmark algorithm track a ≡ ok (b, p) → a ≡ b
    unfolding filter_benchmark
    filter_same a b p e = ground arith

    candidates-IsEligible :
        (b : SourceBenchmark V) (p : ℤ)
        → In (b, p) candidates
        → In b active_benchmarks × IsEligible algorithm track b p
    candidates-IsEligible b p i =
        let j =
          subst (In (b, p))
            (kept_passed (λ b. b.benchmark_id) (filter_benchmark algorithm track) active_benchmarks)
            i in
        let (a, k, e) =
          passed-Passes (λ b. b.benchmark_id) (filter_benchmark algorithm track) (b, p)
            active_benchmarks j in
        let q : a ≡ b = filter_same a b p e in
        (
          subst (λ x. In x active_benchmarks) q k,
          filter-IsEligible algorithm track b
              (subst (λ x. filter_benchmark algorithm track x ≡ ok (b, p)) q e),
        )

    IsEligible-candidates :
        (b : SourceBenchmark V) (p : ℤ)
        → In b active_benchmarks
        → IsEligible algorithm track b p
        → In (b, p) candidates
    IsEligible-candidates b p i h =
        subst (In (b, p))
          (sym (
            kept_passed (λ b. b.benchmark_id) (filter_benchmark algorithm track) active_benchmarks))
          (Passes-passed (λ b. b.benchmark_id) (filter_benchmark algorithm track) b (b, p)
            active_benchmarks i (IsEligible-filter algorithm track b h))

    first_tied :
        (q : ℤ)
        → max? compare_ℤ (map (λ c. c.1) candidates) ≡ some q
        → (w : SourceBenchmark V) × (head? (tied_of candidates q) ≡ some w)
    first_tied q e =
        let (c, i, f) = map-In (λ c. c.1) q candidates (max?-In compare_ℤ q _ e) in
        let pair : c ≡ (c.0, q) = ground arith in
        head?-some c.0 (tied_of candidates q)
          (In-tied_of c.0 q candidates (subst (λ x. In x candidates) pair i))

    -- The selection either names an eligible benchmark that outranks every eligible one, by its best
    -- bundle, then the later confirmation, then the smaller id, with its settings and its fuel budget;
    -- or it names nothing, copies nothing, and no benchmark of the input is eligible.
    pub select_source-IsBest :
        IsWithout input (select_source input)
        ⊎ ((w : SourceBenchmark V) × (q : ℤ) × IsBest input (select_source input) w q)
    unfolding select_source select_from
    select_source-IsBest = elim (Option-cases (max? compare_ℤ (map (λ c. c.1) candidates))) [
      | inl e ↦ inl (record {
        unchosen = ground arith;
        uncopied = ground arith;
        no_fuel = ground arith;
        no_quality = ground arith;
        none_eligible = λ b p i h.
            let (m, f) =
              max?-some compare_ℤ p (map (λ c. c.1) candidates)
                (In-map (λ c. c.1) (b, p) candidates (IsEligible-candidates b p i h)) in
            cc;
      })
      | inr (q, e) ↦
          let (w, h) = first_tied q e in
          let best = first_tied_best w q candidates e h in
          let own = candidates-IsEligible w q best.0 in
          inr (
            w,
            q,
            record {
              offered = own.0;
              eligible = own.1;
              chosen = ground arith;
              copied = ground arith;
              fuel = ground arith;
              quality = ground arith;
              best = λ b p i k. best.1 b p (IsEligible-candidates b p i k);
            },
          )
    ]

    excluded_sift :
        (select_source input).excluded
        ≡ (sift (λ b. b.benchmark_id) (filter_benchmark algorithm track) active_benchmarks).excluded
    unfolding select_source select_from
    excluded_sift = ground arith

    -- Over distinct ids every benchmark is eligible, or is recorded as left out for the first test
    -- that it fails; an eligible one is not recorded.
    pub select_source_excluded :
        (b : SourceBenchmark V)
        → IsDistinct (λ b. b.benchmark_id) (filter_benchmark algorithm track) active_benchmarks
        → In b active_benchmarks
        → ((best : ℤ) × IsEligible algorithm track b best
            × (get b.benchmark_id (select_source input).excluded ≡ none))
          ⊎ ((why : SourceExcluded) × FailsFor algorithm track b why
              × (get b.benchmark_id (select_source input).excluded ≡ some why))
    select_source_excluded b d i = elim (Result-cases (filter_benchmark algorithm track b)) [
      | inl ((b', best), e) ↦
          let q : b ≡ b' = filter_same b b' best e in
          inl (
            best,
            filter-IsEligible algorithm track b
                (subst (λ x. filter_benchmark algorithm track b ≡ ok (x, best)) (sym q) e),
            recorded (ok (b', best)) e,
          )
      | inr (why, e) ↦ inr (why, filter-FailsFor algorithm track b why e, recorded (err why) e)
    ]
      where
        recorded :
            (r : Result SourceExcluded (SourceBenchmark V × ℤ))
            → filter_benchmark algorithm track b ≡ r
            → get b.benchmark_id (select_source input).excluded
              ≡ reason (λ b. b.benchmark_id) (filter_benchmark algorithm track) r
        recorded r e = rw excluded_sift (
            excluded_reason (λ b. b.benchmark_id) (filter_benchmark algorithm track) b
              active_benchmarks d i
            ∙ ap (reason (λ b. b.benchmark_id) (filter_benchmark algorithm track)) e)
