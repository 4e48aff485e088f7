-- ===== src/Gateway/Readiness/Checks.antt =====
-- crates/tig-gateway/src/readiness.rs: the checks of `evaluate`, each as the failures it adds.
use tig_mining_pool_public.Common.{
  List, [], ◌∷◌, ◌++◌, Option, none, some, Bool, true, false, not, ◌&&◌, if◌then◌else◌, Result, ok,
  err,
}
use tig_mining_pool_public.Common.Bytes.{Bytes, codes, same}
use tig_mining_pool_public.Common.Map.{Map, get, insert}
use tig_mining_pool_public.Common.Text.{is_whitespace}
use tig_mining_pool_public.Gateway.Network.{Network, testnet, is_same, as_str}
use tig_mining_pool_public.Gateway.Readiness.{
  Check, config_network, upstream_commit, container_digests, open_api_checksum, response_models,
  challenge_runtimes, serialization_fixtures, api_key_isolation, player_identity, Failure, Pins,
  ResolvedImage, ImageObservation, OpenApiObservation, ModelValidation, ActiveChallengeRuntime,
  FixtureOutcome, ApiKeyPlacement,
}

abbrev pub fail : Check → Bytes → List Failure
fail check detail = record { check = check; detail = detail } ∷ []

-- What a test adds that did not come out well.
abbrev pub unless : Bool → List Failure → List Failure
unless true failures = []
unless false failures = failures

unfoldable pub check_network : Pins → Result Bytes Network → List Failure
check_network pins (err e) = fail config_network (codes "config did not parse: " ++ e)
check_network pins (ok network) =
    if is_same network testnet
    then unless (is_same network pins.network) (
        fail config_network (
          codes "network "
          ++ as_str network
          ++ codes " disagrees with the pinned "
          ++ as_str pins.network))
    else fail config_network
        (codes "network is " ++ as_str network ++ codes ", and §13 requires exactly testnet")

unfoldable pub check_commit : Pins → Result Bytes Bytes → List Failure
check_commit pins (err e) =
    fail upstream_commit (codes "could not determine the acquired upstream commit: " ++ e)
check_commit pins (ok commit) = unless (same commit pins.commit) (
    fail upstream_commit (
      codes "acquired "
      ++ commit
      ++ codes ", pinned "
      ++ pins.commit
      ++ codes "; §13 never accepts a moved branch automatically"))

-- `reason.trim().is_empty()`
unfoldable pub is_blank : Bytes → Bool
is_blank [] = true
is_blank (c ∷ rest) = is_whitespace c && is_blank rest

unfoldable pub by_reference : List ResolvedImage → Map ResolvedImage → Map ResolvedImage
by_reference [] m = m
by_reference (image ∷ rest) m = by_reference rest (insert image.reference image m)

unfoldable pub check_image : Pins → Bytes → Bytes → Option ResolvedImage → List Failure
check_image pins reference digest none =
    fail container_digests (reference ++ codes " did not resolve")
check_image pins reference digest (some image) =
    if same image.manifest_digest digest
    then unless (same image.platform pins.platform) (
        fail container_digests (
          reference
          ++ codes " resolved for platform "
          ++ image.platform
          ++ codes ", pinned "
          ++ pins.platform))
    else fail container_digests
        (reference ++ codes " resolved to " ++ image.manifest_digest ++ codes ", pinned " ++ digest)

unfoldable pub check_images : Pins → Map ResolvedImage → Map Bytes → List Failure
unfolding check_image
check_images pins images [] = []
check_images pins images ((reference, digest) ∷ rest) =
    check_image pins reference digest (get reference images) ++ check_images pins images rest

abbrev pub check_observed :
    Pins → Option (List ResolvedImage) → Option Bytes → List Failure × Option Bytes
check_observed pins none none = (
  fail container_digests (
      codes
        "no container digests were resolved and no reviewed acknowledgement is active; see tig_integration.md §13.2"),
  none,
)
check_observed pins none (some reason) =
    if is_blank reason
    then (
      fail container_digests (
          codes
            "the container acknowledgement gives no reason; §13.2 requires one, because it is what a later operator reads to decide whether the deviation still holds"),
      none,
    )
    else ([], some reason)
check_observed pins (some resolved) reviewed =
    (check_images pins (by_reference resolved []) pins.image_digests, none)

-- The failures, and the reason for which the containers stay unresolved.
unfoldable pub check_containers : Pins → Result Bytes ImageObservation → List Failure × Option Bytes
unfolding check_images by_reference is_blank
check_containers pins (err e) =
    (fail container_digests (codes "could not resolve container digests: " ++ e), none)
check_containers pins (ok o) = check_observed pins o.resolved o.reviewed_unresolved

abbrev pub check_checksum : Pins → Option Bytes → Option Bytes → List Failure
check_checksum pins (some sha) hosted = unless (same sha pins.openapi_sha256) (
    fail open_api_checksum (
      codes "the local schema override checksum "
      ++ sha
      ++ codes " is not the reviewed "
      ++ pins.openapi_sha256))
check_checksum pins none (some hosted) = unless (same hosted pins.openapi_sha256) (
    fail open_api_checksum (
      codes "hosted OpenAPI checksum "
      ++ hosted
      ++ codes " is not the reviewed "
      ++ pins.openapi_sha256
      ++ codes "; §13 makes this an operator task, not an automatic re-pin"))
check_checksum pins none none =
    fail open_api_checksum (codes "no hosted checksum and no reviewed local override")

unfoldable pub check_openapi : Pins → Result Bytes OpenApiObservation → List Failure
check_openapi pins (err e) =
    fail open_api_checksum (codes "could not obtain the OpenAPI document: " ++ e)
check_openapi pins (ok o) = check_checksum pins o.reviewed_local_override o.hosted_sha256

unfoldable pub by_endpoint : List ModelValidation → Map ModelValidation → Map ModelValidation
by_endpoint [] m = m
by_endpoint (v ∷ rest) m = by_endpoint rest (insert v.endpoint v m)

unfoldable pub check_model : Bytes → Option ModelValidation → List Failure
check_model endpoint none = fail response_models (endpoint ++ codes " was not validated")
check_model endpoint (some v) =
    unless v.valid (fail response_models (endpoint ++ codes " did not validate: " ++ v.detail))

unfoldable pub check_models : Map ModelValidation → List Bytes → List Failure
unfolding check_model
check_models validations [] = []
check_models validations (endpoint ∷ rest) =
    check_model endpoint (get endpoint validations) ++ check_models validations rest

unfoldable pub check_runtimes : List ActiveChallengeRuntime → List Failure
check_runtimes [] = []
check_runtimes (c ∷ rest) =
    unless c.runtime_pinned (
      fail challenge_runtimes
        (codes "challenge " ++ c.challenge_id ++ codes " has no pinned runtime"))
    ++ unless c.compute_path_supported (
        fail challenge_runtimes
          (codes "challenge " ++ c.challenge_id ++ codes " has no supported compute path"))
    ++ check_runtimes rest

unfoldable pub check_fixtures : Result Bytes FixtureOutcome → List Failure
check_fixtures (err e) = fail serialization_fixtures (codes "could not run the fixtures: " ++ e)
check_fixtures (ok o) =
    unless o.lossless_numeric_parsing
      (fail serialization_fixtures (codes "lossless numeric parsing failed: " ++ o.detail))
    ++ unless o.canonical_request_serialization
        (fail serialization_fixtures (codes "canonical request serialization failed: " ++ o.detail))

unfoldable pub check_api_key : Result Bytes ApiKeyPlacement → List Failure
check_api_key (err e) =
    fail api_key_isolation (codes "could not establish where the API key is: " ++ e)
check_api_key (ok p) =
    unless p.present_in_gateway
      (fail api_key_isolation (codes "the TIG API key is not present in the gateway"))
    ++ unless (not p.readable_by_member_services) (
        fail api_key_isolation
          (codes "the TIG API key is readable by member services (architecture.md §2.2)"))

unfoldable pub check_player : Pins → Result Bytes Bytes → List Failure
check_player pins (err e) =
    fail player_identity (codes "could not read the confirmed pool player ID: " ++ e)
check_player pins (ok observed) = unless (same observed pins.pool_player_id) (
    fail player_identity (
      codes "confirmed data reports player "
      ++ observed
      ++ codes ", configured identity is "
      ++ pins.pool_player_id))
