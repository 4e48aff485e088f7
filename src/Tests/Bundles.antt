-- ===== src/Tests/Bundles.antt =====
-- A sizing of two tracks for twelve cores.
use tig_mining_pool_public.Common.{◌≡◌, refl, true, false, none, [], ◌∷◌, ok, err}
use tig_mining_pool_public.Common.Bytes.{cmp, codes}
use tig_mining_pool_public.Common.Gcd.{gcd}
use tig_mining_pool_public.Common.Map.{Map, get, insert}
use tig_mining_pool_public.Decision.Compute.{cpu}
use tig_mining_pool_public.Decision.Bundles.{
  TrackSizing, BundleSizing, BundleSizingInput, zero_cores, size_bundles,
}
use tig_mining_pool_public.Decision.Bundles.Sizes.{Answers, size_bundles-Answers}

abbrev tracks : Map TrackSizing
tracks =
    (codes "t1", record { num_nonces_per_bundle = 8; selected_algorithm_best_on_track = true })
    ∷ (codes "t2", record { num_nonces_per_bundle = 8; selected_algorithm_best_on_track = false })
    ∷ []

abbrev twelve_cores : BundleSizingInput
twelve_cores = record { offered_compute = cpu 12; min_num_bundles = 4; tracks = tracks }

abbrev no_cores : BundleSizingInput
no_cores = record twelve_cores { offered_compute = cpu 0 }

-- 12 cores and 8 nonces align at multiples of 3: six bundles where four are asked for.
abbrev sized : BundleSizing
sized = record {
  num_bundles = (codes "t1", 6) ∷ (codes "t2", 4) ∷ [];
  derivation = (codes "t1", record { gcd_cores_nonces = 4; bundle_multiple = 3 }) ∷ [];
}

size_twelve : size_bundles twelve_cores ≡ ok sized
unfolding size_bundles insert gcd cmp
size_twelve = refl

size_none : size_bundles no_cores ≡ err zero_cores
unfolding size_bundles insert gcd cmp
size_none = refl

size_bundles-Answers_example :
    Answers (cpu 12) 4 (get (codes "t1") tracks) none (get (codes "t1") sized.num_bundles)
unfolding cmp
size_bundles-Answers_example =
    size_bundles-Answers twelve_cores sized (codes "t1") (refl, tt) size_twelve
