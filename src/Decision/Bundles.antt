-- ===== src/Decision/Bundles.antt =====
-- crates/pool-decision/src/bundles.rs: how many bundles to ask for on each track.
pub mod Aligned
pub mod Sizes
use tig_mining_pool_public.Common.{
  ℕ, ◌+◌, ◌/◌, ◌%◌, Bool, true, false, ◌==◌, ltb, if◌then◌else◌, [], ◌∷◌, Result, ok, err, ◌>>=◌,
  ok_or,
}
use tig_mining_pool_public.Common.Bytes.{Bytes}
use tig_mining_pool_public.Common.Gcd.{gcd}
use tig_mining_pool_public.Common.Map.{Map, insert}
use tig_mining_pool_public.Common.Words.{u64_size, checked_mul}
use tig_mining_pool_public.Decision.Compute.{OfferedCompute, cpu, gpu}

pub record TrackSizing : Type 0 where
  pub num_nonces_per_bundle : ℕ
  pub selected_algorithm_best_on_track : Bool

pub record BundleSizingInput : Type 0 where
  pub offered_compute : OfferedCompute
  pub min_num_bundles : ℕ
  pub tracks : Map TrackSizing

pub record Derivation : Type 0 where
  pub gcd_cores_nonces : ℕ
  pub bundle_multiple : ℕ

pub record BundleSizing : Type 0 where
  pub num_bundles : Map ℕ
  pub derivation : Map Derivation

pub data BundleSizingError : Type 0 where
  zero_cores : BundleSizingError
  overflow : Bytes → BundleSizingError

-- `u64::div_ceil`
unfoldable pub div_ceil : ℕ → ℕ → ℕ
div_ceil a b = if ltb 0 (a % b) then a / b + 1 else a / b

-- The branch that the formula does not touch.
unfoldable pub size_minimum : ℕ → Bytes → BundleSizing → BundleSizing
size_minimum minimum track_id acc = record acc {
  num_bundles = insert track_id minimum acc.num_bundles;
}

unfoldable pub size_aligned :
    ℕ → ℕ → Bytes → TrackSizing → BundleSizing → Result BundleSizingError BundleSizing
unfolding div_ceil
size_aligned cores minimum track_id track acc = if cores == 0 then err zero_cores else (do
  let divisor = gcd cores track.num_nonces_per_bundle
  let bundle_multiple = cores / divisor
  let steps = div_ceil minimum bundle_multiple
  sized ← ok_or (checked_mul u64_size steps bundle_multiple) (overflow track_id)
  ok (record {
    num_bundles = insert track_id sized acc.num_bundles;
    derivation =
        insert track_id (record { gcd_cores_nonces = divisor; bundle_multiple = bundle_multiple })
          acc.derivation;
  }))

-- The body of the loop over the tracks.
unfoldable pub size_track :
    OfferedCompute → ℕ → Bytes → TrackSizing → BundleSizing → Result BundleSizingError BundleSizing
unfolding size_minimum size_aligned
size_track gpu minimum track_id track acc = ok (size_minimum minimum track_id acc)
size_track (cpu cores) minimum track_id track acc =
    if track.selected_algorithm_best_on_track
    then size_aligned cores minimum track_id track acc
    else ok (size_minimum minimum track_id acc)

unfoldable pub size_tracks :
    OfferedCompute → ℕ → Map TrackSizing → BundleSizing → Result BundleSizingError BundleSizing
unfolding size_track
size_tracks compute minimum [] acc = ok acc
size_tracks compute minimum ((track_id, track) ∷ rest) acc =
    size_track compute minimum track_id track acc >>= size_tracks compute minimum rest

unfoldable pub size_bundles : BundleSizingInput → Result BundleSizingError BundleSizing
unfolding size_tracks
size_bundles input =
    size_tracks input.offered_compute input.min_num_bundles input.tracks
      (record { num_bundles = []; derivation = [] })
