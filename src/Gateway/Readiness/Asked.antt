-- ===== src/Gateway/Readiness/Asked.antt =====
-- crates/tig-gateway/src/readiness.rs: what the nine checks ask.
use tig_mining_pool_public.Common.{
  ◌≡◌, List, [], Option, none, some, true, false, Result, ok, err, All,
}
use tig_mining_pool_public.Common.Bytes.{Bytes}
use tig_mining_pool_public.Common.Map.{get}
use tig_mining_pool_public.Gateway.Network.{testnet}
use tig_mining_pool_public.Gateway.Readiness.{
  required_models, Pins, ResolvedImage, ModelValidation, ActiveChallengeRuntime, FixtureOutcome,
  ApiKeyPlacement, Evidence,
}
use tig_mining_pool_public.Gateway.Readiness.Checks.{is_blank, by_reference, by_endpoint}

-- An image that resolved to its pinned digest, for the pinned platform.
abbrev pub IsPinned : Pins → Bytes → Option ResolvedImage → Type 0
IsPinned pins digest none = ⊥
IsPinned pins digest (some image) =
    (image.manifest_digest ≡ digest) × (image.platform ≡ pins.platform)

abbrev pub IsValid : Option ModelValidation → Type 0
IsValid none = ⊥
IsValid (some v) = v.valid ≡ true

-- The containers are resolved as they are pinned, or stay unresolved for the stated reason.
abbrev pub AreContained : Pins → Option (List ResolvedImage) → Option Bytes → Option Bytes → Type 0
AreContained pins (some images) reviewed unresolved =
    All (λ e. IsPinned pins e.1 (get e.0 (by_reference images []))) pins.image_digests
    × (unresolved ≡ none)
AreContained pins none (some reason) unresolved =
    (is_blank reason ≡ false) × (unresolved ≡ some reason)
AreContained pins none none unresolved = ⊥

-- The override that was chosen has the reviewed checksum, and where none was, the hosted document.
abbrev pub IsReviewed : Pins → Option Bytes → Option Bytes → Type 0
IsReviewed pins (some sha) hosted = sha ≡ pins.openapi_sha256
IsReviewed pins none (some hosted) = hosted ≡ pins.openapi_sha256
IsReviewed pins none none = ⊥

abbrev pub IsRunnable : ActiveChallengeRuntime → Type 0
IsRunnable c = (c.runtime_pinned ≡ true) × (c.compute_path_supported ≡ true)

-- The observation was made, and what it saw is so.
abbrev pub Saw : {A : Type 0} → Result Bytes A → (A → Type 0) → Type 0
Saw (ok a) P = P a
Saw (err e) P = ⊥

abbrev pub IsReplayed : FixtureOutcome → Type 0
IsReplayed o = (o.lossless_numeric_parsing ≡ true) × (o.canonical_request_serialization ≡ true)

abbrev pub IsIsolated : ApiKeyPlacement → Type 0
IsIsolated p = (p.present_in_gateway ≡ true) × (p.readable_by_member_services ≡ false)

-- What the nine checks ask of the evidence.
pub record IsReady (pins : Pins) (evidence : Evidence) (unresolved : Option Bytes) : Type 0 where
  pub on_testnet : (evidence.network ≡ ok testnet) × (pins.network ≡ testnet)
  pub at_commit : evidence.commit ≡ ok pins.commit
  pub contained :
      Saw evidence.resolved_images
        (λ o. AreContained pins o.resolved o.reviewed_unresolved unresolved)
  pub reviewed :
      Saw evidence.openapi (λ o. IsReviewed pins o.reviewed_local_override o.hosted_sha256)
  pub validated :
      Saw evidence.models (λ vs. All (λ e. IsValid (get e (by_endpoint vs []))) required_models)
  pub runnable : Saw evidence.active_challenges (All IsRunnable)
  pub replayed : Saw evidence.fixtures IsReplayed
  pub isolated : Saw evidence.api_key IsIsolated
  pub identified : evidence.confirmed_pool_player_id ≡ ok pins.pool_player_id
