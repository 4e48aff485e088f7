-- ===== src/Decision/Bundles/Sizes.antt =====
-- crates/pool-decision/src/bundles.rs: what `size_bundles` returns for every track, and when it fails.
use tig_mining_pool_public.Common.{
  ℕ, ◌≤◌, ◌<◌, ◌≡◌, inl, inr, refl, sym, ap, ◌∙◌, subst, Bool, true, false, Option, none, some, [],
  ◌∷◌, In, ok, err, >>=-eq-ok, Result-cases, arith, Bool-cases,
}
use tig_mining_pool_public.Common.Bytes.{Bytes, same, same-eq}
use tig_mining_pool_public.Common.Map.{
  Map, get, insert, get-insert-same, get-insert_other, IsSorted, get-Above, Above-IsSorted,
}
use tig_mining_pool_public.Common.Words.{u64_size}
use tig_mining_pool_public.Decision.Compute.{OfferedCompute, cpu, gpu}
use tig_mining_pool_public.Decision.Bundles.{
  TrackSizing, BundleSizingInput, BundleSizing, BundleSizingError, zero_cores, overflow,
  size_minimum, size_aligned, size_track, size_tracks, size_bundles,
}
use tig_mining_pool_public.Decision.Bundles.Aligned.{
  Fills, IsLeastAligned, aligned, aligned-IsLeastAligned,
}

-- The count that a track is owed: the minimum, or the least aligned count for a CPU offer whose
-- algorithm is best on the track.
abbrev pub IsSizedAt : OfferedCompute → ℕ → ℕ → Bool → ℕ → Type 0
IsSizedAt (cpu cores) minimum nonces true n = IsLeastAligned cores nonces minimum n × (n < u64_size)
IsSizedAt (cpu cores) minimum nonces false n = n ≡ minimum
IsSizedAt gpu minimum nonces best n = n ≡ minimum

abbrev pub IsSized : OfferedCompute → ℕ → TrackSizing → ℕ → Type 0
IsSized compute minimum t =
    IsSizedAt compute minimum t.num_nonces_per_bundle t.selected_algorithm_best_on_track

-- What a run of the loop leaves under a key, given the track that it meets there and what the key
-- held before.
abbrev pub Answers : OfferedCompute → ℕ → Option TrackSizing → Option ℕ → Option ℕ → Type 0
Answers compute minimum none old answer = answer ≡ old
Answers compute minimum (some track) old answer =
    (n : ℕ) × (answer ≡ some n) × IsSized compute minimum track n

size_aligned_inv :
    (cores minimum : ℕ) (id : Bytes) (t : TrackSizing) (acc acc' : BundleSizing)
    → size_aligned cores minimum id t acc ≡ ok acc'
    → (n : ℕ) × (acc'.num_bundles ≡ insert id n acc.num_bundles)
      × IsLeastAligned cores t.num_nonces_per_bundle minimum n
      × (n < u64_size)
unfolding size_aligned
size_aligned_inv cores minimum id t acc acc' e = (
  aligned cores t.num_nonces_per_bundle minimum,
  ground arith,
  aligned-IsLeastAligned cores t.num_nonces_per_bundle minimum (ground arith),
  ground arith,
)

size_track_inv :
    (compute : OfferedCompute) (minimum : ℕ) (id : Bytes) (t : TrackSizing)
    (acc acc' : BundleSizing)
    → size_track compute minimum id t acc ≡ ok acc'
    → (n : ℕ) × (acc'.num_bundles ≡ insert id n acc.num_bundles) × IsSized compute minimum t n
unfolding size_track size_minimum
size_track_inv gpu minimum id t acc acc' e = (minimum, ground arith, refl)
size_track_inv (cpu cores) minimum id t acc acc' e =
    elim (Bool-cases t.selected_algorithm_best_on_track) [
      | inl best ↦
          let made = size_aligned_inv cores minimum id t acc acc' (ground arith) in
          (made.0, made.1, at_best _ best (made.2, made.3))
      | inr other ↦ (minimum, ground arith, at_best _ other refl)
    ]
  where
    at_best :
        {best : Bool} (n : ℕ)
        → t.selected_algorithm_best_on_track ≡ best
        → IsSizedAt (cpu cores) minimum t.num_nonces_per_bundle best n
        → IsSized (cpu cores) minimum t n
    at_best n q = subst (λ b. IsSizedAt (cpu cores) minimum t.num_nonces_per_bundle b n) (sym q)

module _ (compute : OfferedCompute) (minimum : ℕ) where
  size_tracks-Answers :
      (tracks : Map TrackSizing) (acc s : BundleSizing) (j : Bytes)
      → IsSorted tracks
      → size_tracks compute minimum tracks acc ≡ ok s
      → Answers compute minimum (get j tracks) (get j acc.num_bundles) (get j s.num_bundles)
  unfolding size_tracks get
  size_tracks-Answers [] acc s j sorted e = ground arith
  size_tracks-Answers ((id, t) ∷ rest) acc s j sorted e =
      let (acc', e', f) = >>=-eq-ok (size_track compute minimum id t acc) _ e in
      let (n, put, sized) = size_track_inv compute minimum id t acc acc' e' in
      let ih = size_tracks-Answers rest acc' s j (Above-IsSorted id rest sorted) f in
      elim (Bool-cases (same j id)) [
        | inl q ↦
            let none_left : get j rest ≡ none = rw (same-eq j id q) (get-Above id rest sorted) in
            let kept : get j s.num_bundles ≡ get j acc'.num_bundles =
              subst (λ o. Answers compute minimum o (get j acc'.num_bundles) (get j s.num_bundles))
                none_left ih in
            rw q (n, kept ∙ (ap (get j) put ∙ get-insert-same j id n acc.num_bundles q), sized)
        | inr q ↦ rw q (
            subst (λ o. Answers compute minimum (get j rest) o (get j s.num_bundles))
              (ap (get j) put ∙ get-insert_other j id n acc.num_bundles q) ih)
      ]

-- Every track of the input, and no other, has a count in a result: the minimum for a GPU offer and
-- where the algorithm is not best on the track, and otherwise the least count at or above the
-- minimum whose nonces fill the cores evenly, which is a `u64`.
pub size_bundles-Answers :
    (input : BundleSizingInput) (s : BundleSizing) (track_id : Bytes)
    → IsSorted input.tracks
    → size_bundles input ≡ ok s
    → Answers input.offered_compute input.min_num_bundles
        (get track_id input.tracks)
        none
        (get track_id s.num_bundles)
unfolding size_bundles get
size_bundles-Answers input s j sorted e =
    size_tracks-Answers input.offered_compute input.min_num_bundles input.tracks _ s j sorted e

-- Why a sizing fails: no core to align to, or no aligned count in the range of a `u64`.
abbrev pub Explains : OfferedCompute → ℕ → Map TrackSizing → BundleSizingError → Type 0
Explains compute minimum tracks zero_cores =
    (compute ≡ cpu 0)
    × (id : Bytes) × (t : TrackSizing) × In (id, t) tracks
    × (t.selected_algorithm_best_on_track ≡ true)
Explains compute minimum tracks (overflow id) =
    (cores : ℕ) × (t : TrackSizing) × (compute ≡ cpu cores)
    × In (id, t) tracks
    × (t.selected_algorithm_best_on_track ≡ true)
    × ((n : ℕ) → minimum ≤ n → Fills cores t.num_nonces_per_bundle n → u64_size ≤ n)

size_aligned_error :
    (cores minimum : ℕ) (id : Bytes) (t : TrackSizing) (acc : BundleSizing) (x : BundleSizingError)
    → t.selected_algorithm_best_on_track ≡ true
    → size_aligned cores minimum id t acc ≡ err x
    → Explains (cpu cores) minimum ((id, t) ∷ []) x
unfolding size_aligned
size_aligned_error cores minimum id t acc zero_cores best e = (ground arith, id, t, inl refl, best)
size_aligned_error cores minimum id t acc (overflow i) best e = (
  cores,
  t,
  refl,
  ground arith,
  best,
  λ n enough fills.
      let least =
        (aligned-IsLeastAligned cores t.num_nonces_per_bundle minimum (ground arith)).least n enough
          fills in
      let big : u64_size ≤ aligned cores t.num_nonces_per_bundle minimum = ground arith in
      omega arith,
)

size_track_error :
    (compute : OfferedCompute) (minimum : ℕ) (id : Bytes) (t : TrackSizing) (acc : BundleSizing)
    (x : BundleSizingError)
    → size_track compute minimum id t acc ≡ err x
    → Explains compute minimum ((id, t) ∷ []) x
unfolding size_track
size_track_error gpu minimum id t acc x e = cc
size_track_error (cpu cores) minimum id t acc x e =
    elim (Bool-cases t.selected_algorithm_best_on_track) [
      | inl best ↦ size_aligned_error cores minimum id t acc x best (ground arith)
      | inr other ↦ cc
    ]

Explains-mono :
    (compute : OfferedCompute) (minimum : ℕ) (xs ys : Map TrackSizing) (x : BundleSizingError)
    → ((e : Bytes × TrackSizing) → In e xs → In e ys)
    → Explains compute minimum xs x
    → Explains compute minimum ys x
Explains-mono compute minimum xs ys zero_cores f (c, i, u, e, b) = (c, i, u, f _ e, b)
Explains-mono compute minimum xs ys (overflow o) f (k, u, c, e, b, l) = (k, u, c, f _ e, b, l)

size_tracks_error :
    (compute : OfferedCompute) (minimum : ℕ) (tracks : Map TrackSizing) (acc : BundleSizing)
    (x : BundleSizingError)
    → size_tracks compute minimum tracks acc ≡ err x
    → Explains compute minimum tracks x
unfolding size_tracks
size_tracks_error compute minimum [] acc x e = cc
size_tracks_error compute minimum ((id, t) ∷ rest) acc x e =
    elim (Result-cases (size_track compute minimum id t acc)) [
      | inl (acc', f) ↦
          Explains-mono compute minimum rest ((id, t) ∷ rest) x (λ _ i. inr i)
            (size_tracks_error compute minimum rest acc' x (rw f at e))
      | inr (y, f) ↦
          Explains-mono compute minimum ((id, t) ∷ []) ((id, t) ∷ rest) x head_first
            (size_track_error compute minimum id t acc x (f ∙ (rw f at e)))
    ]
  where
    head_first : (p : Bytes × TrackSizing) → In p ((id, t) ∷ []) → In p ((id, t) ∷ rest)
    head_first p (inl q) = inl q
    head_first p (inr q) = absurd q

-- A sizing fails only for a CPU offer with no cores and a track that its algorithm is best on, or
-- where no count at or above the minimum both fills the cores of such a track and is a `u64`.
pub size_bundles_error :
    (input : BundleSizingInput) (x : BundleSizingError)
    → size_bundles input ≡ err x
    → Explains input.offered_compute input.min_num_bundles input.tracks x
unfolding size_bundles
size_bundles_error input x e =
    size_tracks_error input.offered_compute input.min_num_bundles input.tracks _ x e
