-- ===== src/Gateway/Readiness.antt =====
-- crates/tig-gateway/src/readiness.rs: the nine checks that permission to write takes. What was
-- observed is a value, or the message of the observation that failed.
pub mod Checks
pub mod Evaluate
pub mod Asked
pub mod Reviews
pub mod Ready
use tig_mining_pool_public.Common.{ℕ, List, [], ◌∷◌, Option, Bool, Result}
use tig_mining_pool_public.Common.Bytes.{Bytes, codes}
use tig_mining_pool_public.Common.Map.{Map}
use tig_mining_pool_public.Gateway.Network.{Network}

pub data Check : Type 0 where
  config_network upstream_commit container_digests open_api_checksum response_models : Check
  challenge_runtimes serialization_fixtures api_key_isolation player_identity : Check

unfoldable pub number : Check → ℕ
number config_network = 1
number upstream_commit = 2
number container_digests = 3
number open_api_checksum = 4
number response_models = 5
number challenge_runtimes = 6
number serialization_fixtures = 7
number api_key_isolation = 8
number player_identity = 9

pub record Failure : Type 0 where
  pub check : Check
  pub detail : Bytes

pub record Pins : Type 0 where
  pub network : Network
  pub commit : Bytes
  pub image_digests : Map Bytes
  pub image_names : List Bytes
  pub platform : Bytes
  pub openapi_sha256 : Bytes
  pub pool_player_id : Bytes

pub record ResolvedImage : Type 0 where
  pub reference : Bytes
  pub manifest_digest : Bytes
  pub platform : Bytes

pub record ImageObservation : Type 0 where
  pub resolved : Option (List ResolvedImage)
  pub reviewed_unresolved : Option Bytes

pub record OpenApiObservation : Type 0 where
  pub hosted_sha256 : Option Bytes
  pub reviewed_local_override : Option Bytes

pub record ModelValidation : Type 0 where
  pub endpoint : Bytes
  pub valid : Bool
  pub detail : Bytes

pub record ActiveChallengeRuntime : Type 0 where
  pub challenge_id : Bytes
  pub runtime_pinned : Bool
  pub compute_path_supported : Bool

pub record FixtureOutcome : Type 0 where
  pub lossless_numeric_parsing : Bool
  pub canonical_request_serialization : Bool
  pub detail : Bytes

pub record ApiKeyPlacement : Type 0 where
  pub present_in_gateway : Bool
  pub readable_by_member_services : Bool

abbrev pub required_models : List Bytes
required_models =
    codes "get-block"
    ∷ codes "get-challenges"
    ∷ codes "get-algorithms"
    ∷ codes "get-opow"
    ∷ codes "get-benchmarks"
    ∷ []

pub record Evidence : Type 0 where
  pub network : Result Bytes Network
  pub commit : Result Bytes Bytes
  pub resolved_images : Result Bytes ImageObservation
  pub openapi : Result Bytes OpenApiObservation
  pub models : Result Bytes (List ModelValidation)
  pub active_challenges : Result Bytes (List ActiveChallengeRuntime)
  pub fixtures : Result Bytes FixtureOutcome
  pub api_key : Result Bytes ApiKeyPlacement
  pub confirmed_pool_player_id : Result Bytes Bytes

pub record WriteReady : Type 0 where
  pub network : Network
  pub commit : Bytes
  pub containers_unresolved : Option Bytes
