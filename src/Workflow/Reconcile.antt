-- ===== src/Workflow/Reconcile.antt =====
-- crates/pool-workflow/src/reconcile.rs: the search for a precommit whose response was lost, over the
-- records of a read. The JSON library is a parameter.
pub mod Found
use Prim.Native.String.{String}
use tig_mining_pool_public.Common.{
  ℕ, suc, ◌+◌, ◌==◌, Bool, true, false, not, ◌&&◌, if◌then◌else◌, Option, none, some, List, [], ◌∷◌,
  ◌++◌, map, Result, ok, err, ◌>>=◌, ok_or,
}
use tig_mining_pool_public.Common.Bytes.{Bytes, codes, same, cmp}
use tig_mining_pool_public.Common.Map.{Map, get}
use tig_mining_pool_public.Common.Sort.{sort_by}
use tig_mining_pool_public.Workflow.Payload.{Json, TrackSettings, PrecommitSubmission}

pub data Reconciliation : Type 0 where
  no_candidate pending_confirmation : Reconciliation
  confirmed : Bytes → Reconciliation
  stop_for_operator : List Bytes → Reconciliation

pub data ReconcileError : Type 0 where
  shape : ℕ → Bytes → ReconcileError

pub record Candidate (Value : Type 0) : Type 0 where
  pub benchmark_id : Bytes
  pub player_id : Bytes
  pub block_id : Bytes
  pub challenge_id : Bytes
  pub algorithm_id : Bytes
  pub compute_type : Bytes
  pub track_id : Bytes
  pub settings : TrackSettings Value
  pub confirmed : Bool

abbrev pub same_texts : Map Bytes → Map Bytes → Bool
same_texts [] [] = true
same_texts [] (b ∷ bs) = false
same_texts (a ∷ xs) [] = false
same_texts (a ∷ xs) (b ∷ bs) = same a.0 b.0 && same a.1 b.1 && same_texts xs bs

-- The verdict on what matched, with whether it has confirmed.
abbrev pub verdict : List (Bytes × Bool) → Reconciliation
verdict [] = no_candidate
verdict ((id, true) ∷ []) = confirmed id
verdict ((id, false) ∷ []) = pending_confirmation
verdict (a ∷ b ∷ rest) = stop_for_operator (sort_by cmp (map (λ m. m.0) (a ∷ b ∷ rest)))

module _ {Value : Type 0} (json : Json Value) where
  -- `render`, for one value.
  abbrev pub text_of : Option Bytes → Value → Bytes
  text_of none v = json.to_string v
  text_of (some text) v = text

  abbrev pub render : Map Value → Map Bytes
  render = map (λ e. (e.0, text_of (json.as_str e.1) e.1))

  unfoldable pub hyperparameters_match : Map Value → Map Value → Bool
  hyperparameters_match a b = same_texts (render a) (render b)

  abbrev pub and_then_get : Bytes → Option Value → Option Value
  and_then_get key none = none
  and_then_get key (some v) = json.get key v

  abbrev pub is_present : Option Value → Bool
  is_present none = false
  is_present (some v) = not (json.is_null v)

  unfoldable pub block_confirmed : Value → Bool
  block_confirmed record_ =
      is_present (and_then_get (codes "block_confirmed") (json.get (codes "state") record_))

  abbrev pub as_text : Option Value → Option Bytes
  as_text none = none
  as_text (some v) = json.as_str v

  abbrev pub as_number : Option Value → Option ℕ
  as_number none = none
  as_number (some v) = json.as_u64 v

  abbrev pub field : ℕ → Value → String → String → Result ReconcileError Bytes
  field index parent path key =
      ok_or (as_text (json.get (codes key) parent))
        (shape index (codes "missing " ++ codes path ++ codes "." ++ codes key))

  abbrev pub number : ℕ → Value → String → String → Result ReconcileError ℕ
  number index parent path key =
      ok_or (as_number (json.get (codes key) parent))
        (shape index (codes "missing or non-numeric " ++ codes path ++ codes "." ++ codes key))

  abbrev pub object_of : ℕ → Option (Map Value) → Result ReconcileError (Map Value)
  object_of index none = err (shape index (codes "details.hyperparameters is not an object"))
  object_of index (some m) = ok m

  abbrev pub hyperparameters_of : ℕ → Option Value → Result ReconcileError (Map Value)
  hyperparameters_of index none = ok []
  hyperparameters_of index (some v) =
      if json.is_null v then ok [] else object_of index (json.as_object v)

  unfoldable pub candidate_of : ℕ → Value → Result ReconcileError (Candidate Value)
  unfolding block_confirmed
  candidate_of index entry = do
    benchmark_id ← field index entry "precommit" "benchmark_id"
    settings ← ok_or (json.get (codes "settings") entry) (shape index (codes "missing settings"))
    details ← ok_or (json.get (codes "details") entry) (shape index (codes "missing details"))
    hyperparameters ← hyperparameters_of index (json.get (codes "hyperparameters") details)
    player_id ← field index settings "settings" "player_id"
    block_id ← field index settings "settings" "block_id"
    challenge_id ← field index settings "settings" "challenge_id"
    algorithm_id ← field index settings "settings" "algorithm_id"
    compute_type ← field index details "details" "compute_type"
    track_id ← field index settings "settings" "track_id"
    num_bundles ← number index details "details" "num_bundles"
    fuel_budget ← number index details "details" "fuel_budget"
    ok (record {
      benchmark_id = benchmark_id;
      player_id = player_id;
      block_id = block_id;
      challenge_id = challenge_id;
      algorithm_id = algorithm_id;
      compute_type = compute_type;
      track_id = track_id;
      settings = record {
        num_bundles = num_bundles;
        fuel_budget = fuel_budget;
        hyperparameters = hyperparameters;
      };
      confirmed = block_confirmed entry;
    })

  abbrev pub is_as_offered : Option (TrackSettings Value) → TrackSettings Value → Bool
  unfolding hyperparameters_match
  is_as_offered none settings = false
  is_as_offered (some offered) settings =
      offered.num_bundles == settings.num_bundles
      && offered.fuel_budget == settings.fuel_budget
      && hyperparameters_match offered.hyperparameters settings.hyperparameters

  unfoldable pub matches : Candidate Value → PrecommitSubmission Value → Bool
  unfolding hyperparameters_match
  matches c submitted =
      same c.player_id submitted.player_id
      && same c.block_id submitted.block_id
      && same c.challenge_id submitted.challenge_id
      && same c.algorithm_id submitted.algorithm_id
      && same c.compute_type submitted.compute_type
      && is_as_offered (get c.track_id submitted.track_settings) c.settings

  -- The loop, from an index on.
  unfoldable pub matches_from :
      ℕ → List Value → PrecommitSubmission Value → Result ReconcileError (List (Bytes × Bool))
  unfolding candidate_of matches
  matches_from index [] submitted = ok []
  matches_from index (entry ∷ rest) submitted = do
    candidate ← candidate_of index entry
    found ← matches_from (suc index) rest submitted
    ok (
        if matches candidate submitted
        then (candidate.benchmark_id, candidate.confirmed) ∷ found
        else found)

  unfoldable pub reconcile_precommit :
      List Value → PrecommitSubmission Value → Result ReconcileError Reconciliation
  unfolding matches_from
  reconcile_precommit precommits submitted = do
    found ← matches_from 0 precommits submitted
    ok (verdict found)
