-- ===== src/Domain/TieDraw.antt =====
-- crates/pool-domain/src/challenge_tie.rs: the ranks of the challenges in a draw. The hash of bytes,
-- BLAKE3 there, is a parameter.
pub mod Ranked
use tig_mining_pool_public.Common.{List, [], ◌∷◌, ◌++◌}
use tig_mining_pool_public.Common.Bytes.{Bytes, codes}
use tig_mining_pool_public.Common.Map.{Map, insert}
use tig_mining_pool_public.Common.Text.{as_bytes}
use tig_mining_pool_public.Decision.Challenge.{DrawRank}
use tig_mining_pool_public.Gateway.Network.{Network, as_str}

abbrev pub challenge_tie_domain : Bytes
challenge_tie_domain = codes "tig-pool-challenge-tie-v1"

abbrev pub newline : Bytes
newline = 10 ∷ []

abbrev pub preimage : Network → Bytes → Bytes
preimage network block_id =
    challenge_tie_domain ++ (newline ++ (as_str network ++ (newline ++ block_id)))

module _ (hash : Bytes → Bytes) where
  unfoldable pub challenge_tie_seed : Network → Bytes → Bytes
  unfolding as_bytes
  challenge_tie_seed network block_id = hash (as_bytes (preimage network block_id))

  unfoldable pub draw_rank : Bytes → Bytes → DrawRank
  unfolding as_bytes
  draw_rank seed challenge_id = hash (seed ++ (newline ++ as_bytes challenge_id))

  -- The pairs, entered into the map in turn.
  unfoldable pub enter : Bytes → List Bytes → Map DrawRank → Map DrawRank
  unfolding draw_rank insert
  enter seed [] ranks = ranks
  enter seed (id ∷ rest) ranks = enter seed rest (insert id (draw_rank seed id) ranks)

  unfoldable pub draw_ranks : Network → Bytes → List Bytes → Map DrawRank
  unfolding challenge_tie_seed enter
  draw_ranks network block_id challenge_ids =
      enter (challenge_tie_seed network block_id) challenge_ids []
