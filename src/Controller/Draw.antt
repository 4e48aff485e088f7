-- ===== src/Controller/Draw.antt =====
-- crates/pool-controller/src/propose.rs: the draw of a proposal, from the eligible challenges to the
-- choice between them.
pub mod Chosen
use tig_mining_pool_public.Common.{Bool, true, ◌&&◌, List, [], ◌∷◌, map, keep, Result}
use tig_mining_pool_public.Common.Bytes.{Bytes, contains}
use tig_mining_pool_public.Decision.Compute.{OfferedCompute, matches_challenge}
use tig_mining_pool_public.Decision.Challenge.{
  Challenge, ChallengeSelectionInput, ChallengeSelection, ChallengeError,
}
use tig_mining_pool_public.Decision.Challenge.Select.{select_challenge}
use tig_mining_pool_public.Domain.TieDraw.{draw_ranks}
use tig_mining_pool_public.Gateway.Network.{Network}

-- The second filter: whether each of the tracks has a source.
unfoldable pub all_sourced : List Bytes → List Bytes → Bool
all_sourced [] sources = true
all_sourced (t ∷ rest) sources = contains t sources && all_sourced rest sources

unfoldable pub eligible : OfferedCompute → List Challenge → List Challenge
unfolding all_sourced
eligible compute challenges =
    keep (λ c. all_sourced c.active_tracks c.tracks_with_source)
      (keep (λ c. matches_challenge compute c.compute_type) challenges)

-- The selection of a proposal. What the snapshot gives is the input; the ranks in it are replaced.
unfoldable pub selection :
    (Bytes → Bytes)
    → Network
    → Bytes
    → ChallengeSelectionInput
    → Result ChallengeError ChallengeSelection
unfolding eligible
selection hash network block_id input = select_challenge (record input {
  draw_ranks =
      draw_ranks hash network block_id
        (map (λ c. c.id) (eligible input.offered_compute input.challenges));
})
