-- ===== src/Decision/Source.antt =====
-- crates/pool-decision/src/source.rs: the active benchmark whose settings the pool copies. A
-- hyperparameter's value is JSON of a library, which the code only copies: it is the parameter `V`.
pub mod Filters
pub mod Winner
pub mod Choice
use tig_mining_pool_public.Common.{
  ℕ, ltb, if◌then◌else◌, Bool, true, false, compare, Ordering, is_eq, Option, none, some, List, [],
  ◌∷◌, map, keep, head?, length, Result, ok, err, ◌>>=◌, ◌>>◌, ok_or, guard, fail_if,
}
use tig_mining_pool_public.Common.Bytes.{Bytes, cmp, same, and_then}
use tig_mining_pool_public.Common.Int.{ℤ, compare_ℤ}
use tig_mining_pool_public.Common.Map.{Map}
use tig_mining_pool_public.Common.Max.{max?}
use tig_mining_pool_public.Common.Sift.{sift}
use tig_mining_pool_public.Common.Sort.{sort_by}

pub record SourceBenchmark (V : Type 0) : Type 0 where
  pub benchmark_id : Bytes
  pub algorithm_id : Bytes
  pub track_id : Bytes
  pub verified : Bool
  pub fraudulent : Bool
  pub block_confirmed : ℕ
  pub average_quality_by_bundle : List ℤ
  pub hyperparameters : Map V
  pub fuel_budget : ℕ

pub data SourceExcluded : Type 0 where
  not_verified fraudulent no_active_bundles : SourceExcluded
  different_algorithm different_track : Bytes → SourceExcluded

pub record SourceSelectionInput (V : Type 0) : Type 0 where
  pub selected_algorithm : Bytes
  pub track : Bytes
  pub active_benchmarks : List (SourceBenchmark V)

pub record SourceSelection (V : Type 0) : Type 0 where
  pub excluded : Map SourceExcluded
  pub highest_quality : Option ℤ
  pub tie_candidates : Option (List Bytes)
  pub source_benchmark : Option Bytes
  pub hyperparameters : Map V
  pub fuel_budget : Option ℕ

module _ {V : Type 0} where
  -- The filters of the loop's body: why a benchmark is left out, or its best bundle.
  unfoldable pub filter_benchmark :
      Bytes → Bytes → SourceBenchmark V → Result SourceExcluded (SourceBenchmark V × ℤ)
  filter_benchmark algorithm track b = do
    guard (same b.algorithm_id algorithm) (different_algorithm b.algorithm_id)
    guard (same b.track_id track) (different_track b.track_id)
    fail_if b.fraudulent SourceExcluded.fraudulent
    guard b.verified not_verified
    best_bundle ← ok_or (max? compare_ℤ b.average_quality_by_bundle) no_active_bundles
    ok (b, best_bundle)

  -- The latest confirmation first, then the smaller id.
  unfoldable pub compare_tied : SourceBenchmark V → SourceBenchmark V → Ordering
  compare_tied a b =
      and_then (compare b.block_confirmed a.block_confirmed) (cmp a.benchmark_id b.benchmark_id)

  -- The candidates that hold the highest quality, in the order of the choice.
  unfoldable pub tied_of : List (SourceBenchmark V × ℤ) → ℤ → List (SourceBenchmark V)
  unfolding compare_tied
  tied_of candidates highest =
      sort_by compare_tied (map (λ c. c.0) (keep (λ c. is_eq (compare_ℤ c.1 highest)) candidates))

  unfoldable pub select_from :
      Map SourceExcluded → List (SourceBenchmark V × ℤ) → ℤ → SourceSelection V
  unfolding tied_of
  select_from excluded candidates highest =
      let tied = tied_of candidates highest in
      let winner = head? tied in
      record {
        excluded = excluded;
        highest_quality = some highest;
        tie_candidates =
            if ltb 1 (length tied)
            then some (sort_by cmp (map (λ b. b.benchmark_id) tied))
            else none;
        source_benchmark = elim winner [ none ↦ none | some b ↦ some b.benchmark_id ];
        hyperparameters = elim winner [ none ↦ [] | some b ↦ b.hyperparameters ];
        fuel_budget = elim winner [ none ↦ none | some b ↦ some b.fuel_budget ];
      }

  unfoldable pub select_source : SourceSelectionInput V → SourceSelection V
  unfolding filter_benchmark select_from
  select_source input =
      let sifted =
        sift (λ b. b.benchmark_id) (filter_benchmark input.selected_algorithm input.track)
          input.active_benchmarks in
      elim (max? compare_ℤ (map (λ c. c.1) sifted.kept)) [
        | none ↦ record {
          excluded = sifted.excluded;
          highest_quality = none;
          tie_candidates = none;
          source_benchmark = none;
          hyperparameters = [];
          fuel_budget = none;
        }
        | some highest ↦ select_from sifted.excluded sifted.kept highest
      ]
