-- ===== src/Tests/Draws.antt =====
-- A draw between two challenges at a block, whose hash is a stand-in that reads the last byte.
use tig_mining_pool_public.Common.{
  ℕ, ◌≡◌, ◌≢◌, ◌↔◌, inl, inr, refl, Option, some, none, [], ◌∷◌, Result, ok, err, In,
}
use tig_mining_pool_public.Common.Bytes.{Bytes, codes, cmp, contains}
use tig_mining_pool_public.Common.Gcd
use tig_mining_pool_public.Common.Map.{Map, get, insert}
use tig_mining_pool_public.Common.Sift.{sift}
use tig_mining_pool_public.Common.Text.{as_bytes}
use tig_mining_pool_public.Decision.Compute.{cpu, cpu_challenge, matches_challenge}
use tig_mining_pool_public.Decision.Ratio.{gcd, new, whole, is_zero, checked_add, checked_cmp}
use tig_mining_pool_public.Decision.Challenge.{
  Challenge, ChallengeSelectionInput, ChallengeSelection, ChallengeError, consider,
}
use tig_mining_pool_public.Decision.Challenge.Project.{project}
use tig_mining_pool_public.Decision.Challenge.Factor.{projected_raw_factor_of}
use tig_mining_pool_public.Decision.Challenge.Tie.{lowest_factor, resolve_tie}
use tig_mining_pool_public.Decision.Challenge.Select.{select_challenge}
use tig_mining_pool_public.Gateway.Network.{testnet}
use tig_mining_pool_public.Domain.TieDraw.{challenge_tie_seed, draw_rank, enter, draw_ranks}
use tig_mining_pool_public.Domain.TieDraw.Ranked.{IsFirst, draw_ranks-Reproduces}
use tig_mining_pool_public.Controller.Draw.{all_sourced, eligible, selection}
use tig_mining_pool_public.Controller.Draw.Chosen.{IsRanked, selection-IsRanked}

abbrev last : Bytes → Bytes
last [] = []
last (x ∷ []) = x ∷ []
last (x ∷ y ∷ rest) = last (y ∷ rest)

abbrev block : Bytes
block = codes "block_100080"

abbrev one : Bytes
one = codes "c001"

abbrev two : Bytes
two = codes "c002"

abbrev three : Bytes
three = codes "c003"

encodes :
    as_bytes (233 ∷ 8364 ∷ 128512 ∷ []) ≡ 195 ∷ 169 ∷ 226 ∷ 130 ∷ 172 ∷ 240 ∷ 159 ∷ 152 ∷ 128 ∷ []
unfolding as_bytes
encodes = refl

ranks_both : draw_ranks last testnet block (two ∷ one ∷ []) ≡ (one, 49 ∷ []) ∷ (two, 50 ∷ []) ∷ []
unfolding draw_ranks enter draw_rank challenge_tie_seed insert cmp as_bytes
ranks_both = refl

same_members : (id : Bytes) → In id (three ∷ one ∷ []) ↔ In id (one ∷ three ∷ [])
same_members id = (swapped id three one, swapped id one three)
  where
    swapped : (id x y : Bytes) → In id (x ∷ y ∷ []) → In id (y ∷ x ∷ [])
    swapped id x y (inl e) = inr (inl e)
    swapped id x y (inr (inl e)) = inl e
    swapped id x y (inr (inr e)) = absurd e

among_three : (id : Bytes) → In id (three ∷ one ∷ []) → In id (one ∷ two ∷ three ∷ [])
among_three id (inl e) = inr (inr (inl e))
among_three id (inr (inl e)) = inl e
among_three id (inr (inr e)) = absurd e

both : three ∷ one ∷ [] ≢ []
both e = cc

draw_ranks-Reproduces_example :
    (w : Bytes) × (resolve_tie
        (three ∷ one ∷ [])
        (draw_ranks last testnet block (one ∷ two ∷ three ∷ []))
      ≡ ok w)
    × (resolve_tie (one ∷ three ∷ []) (draw_ranks last testnet block (one ∷ three ∷ [])) ≡ ok w)
    × IsFirst last testnet block (three ∷ one ∷ []) w
draw_ranks-Reproduces_example =
    draw_ranks-Reproduces last testnet block (one ∷ two ∷ three ∷ []) (three ∷ one ∷ [])
      (one ∷ three ∷ []) (one ∷ three ∷ []) both same_members among_three (λ id i. i)

abbrev quarter_pool : Map (Map ℕ)
quarter_pool = (one, (codes "t", 4) ∷ []) ∷ (two, (codes "t", 2) ∷ []) ∷ []

abbrev offered : Bytes → ℕ → Challenge
offered id n = record {
  id = id;
  compute_type = cpu_challenge;
  active_tracks = codes "t" ∷ [];
  network_qualifiers_by_track = (codes "t", n) ∷ [];
  tracks_with_source = codes "t" ∷ [];
}

-- Two challenges with one factor, and no ranks yet.
abbrev situation : ChallengeSelectionInput
situation = record {
  offered_compute = cpu 8;
  challenges = offered two 10 ∷ offered one 20 ∷ [];
  pool_qualifiers_by_challenge_by_track = quarter_pool;
  confirmed_in_flight_benchmarks = [];
  algorithm_track_stats = [];
  draw_ranks = [];
}

abbrev selected_of : Result ChallengeError ChallengeSelection → Option Bytes
selected_of (ok s) = s.selected
selected_of (err why) = none

draws_first : selected_of (selection last testnet block situation) ≡ some one
unfolding selection eligible all_sourced draw_ranks enter draw_rank challenge_tie_seed as_bytes
    select_challenge sift insert consider contains matches_challenge project projected_raw_factor_of
    get cmp checked_add whole is_zero new gcd Gcd.gcd lowest_factor checked_cmp resolve_tie
draws_first = refl

selection-IsRanked_example : IsRanked (selection last testnet block situation)
selection-IsRanked_example = selection-IsRanked last testnet block situation
