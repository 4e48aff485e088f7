-- ===== src/Decision/Challenge/Eligible.antt =====
-- crates/pool-decision/src/challenge.rs: which challenges are compared, and why the others are not.
use tig_mining_pool_public.Common.{
  ◌≡◌, inl, inr, Bool, true, false, not, some, none, find?, ok, err, Option-cases, arith, In,
  find?-none, none-find?, find?_found,
}
use tig_mining_pool_public.Common.Bytes.{Bytes, contains, contains_iff}
use tig_mining_pool_public.Decision.Compute.{OfferedCompute, matches_challenge}
use tig_mining_pool_public.Decision.Challenge.{
  Challenge, Excluded, incompatible_compute_type, track_without_source, consider,
}

-- A challenge for the offered kind of compute, with a source for each of its active tracks.
pub record IsConsiderable (compute : OfferedCompute) (c : Challenge) : Type 0 where
  pub compatible : matches_challenge compute c.compute_type ≡ true
  pub sourced : (track : Bytes) → In track c.active_tracks → In track c.tracks_with_source

-- Why a challenge is left out.
abbrev pub LeftOutFor : OfferedCompute → Challenge → Excluded → Type 0
LeftOutFor compute c incompatible_compute_type = matches_challenge compute c.compute_type ≡ false
LeftOutFor compute c (track_without_source track) =
    (matches_challenge compute c.compute_type ≡ true)
    × In track c.active_tracks
    × ¬ In track c.tracks_with_source

module _ (compute : OfferedCompute) (c : Challenge) where
  abbrev unsourced : Bytes → Bool
  unsourced track = not (contains track c.tracks_with_source)

  sourced_of_none :
      find? unsourced c.active_tracks ≡ none
      → (track : Bytes) → In track c.active_tracks
      → In track c.tracks_with_source
  sourced_of_none e track i =
      let q = find?-none unsourced c.active_tracks e track i in
      (contains_iff track c.tracks_with_source).0 (ground arith)

  pub consider-IsConsiderable :
      (d : Challenge) → consider compute c ≡ ok d → (c ≡ d) × IsConsiderable compute c
  unfolding consider
  consider-IsConsiderable d e = elim (Option-cases (find? unsourced c.active_tracks)) [
    | inl n ↦ (ground arith, record { compatible = ground arith; sourced = sourced_of_none n })
    | inr (t, s) ↦ ground arith
  ]

  pub IsConsiderable-consider : IsConsiderable compute c → consider compute c ≡ ok c
  unfolding consider
  IsConsiderable-consider h =
      let n =
        none-find? unsourced c.active_tracks (λ t i.
          let q = (contains_iff t c.tracks_with_source).1 (h.sourced t i) in ground arith) in
      rw (h.compatible, n)

  pub consider-LeftOutFor :
      (why : Excluded) → consider compute c ≡ err why → LeftOutFor compute c why
  unfolding consider
  consider-LeftOutFor incompatible_compute_type e = ground arith
  consider-LeftOutFor (track_without_source t) e =
      let s : find? unsourced c.active_tracks ≡ some t = ground arith in
      let (i, q) = find?_found unsourced t c.active_tracks s in
      (
        ground arith,
        i,
        λ j. let r = (contains_iff t c.tracks_with_source).1 j in absurd (ground arith),
      )
