-- ===== src/Gateway/Readiness/Reviews.antt =====
-- crates/tig-gateway/src/readiness.rs: which evidence a check adds no failure for.
use tig_mining_pool_public.Common.{
  ◌≡◌, ◌↔◌, ◌⊎◌, inl, inr, refl, List, [], ◌∷◌, ◌++◌, Option, none, some, true, Result, ok, err,
  All, arith,
}
use tig_mining_pool_public.Common.Bytes.{Bytes, same, same-eq, same_refl}
use tig_mining_pool_public.Common.Map.{Map, get}
use tig_mining_pool_public.Gateway.Network.{Network, testnet, mainnet}
use tig_mining_pool_public.Gateway.Readiness.{
  Pins, ResolvedImage, ModelValidation, ActiveChallengeRuntime,
}
use tig_mining_pool_public.Gateway.Readiness.Checks.{
  check_network, check_commit, check_image, check_images, check_checksum, check_model, check_models,
  check_runtimes, check_player,
}
use tig_mining_pool_public.Gateway.Readiness.Asked.{IsPinned, IsValid, IsReviewed, IsRunnable}

same_iff : (a b : Bytes) → (same a b ≡ true) ↔ (a ≡ b)
same_iff a b = (same-eq a b, λ q. rw q (same_refl b))

Network-cases : (n : Network) → (n ≡ testnet) ⊎ (n ≡ mainnet)
Network-cases testnet = inl refl
Network-cases mainnet = inr refl

pub network_iff :
    (pins : Pins) (r : Result Bytes Network)
    → (check_network pins r ≡ []) ↔ ((r ≡ ok testnet) × (pins.network ≡ testnet))
unfolding check_network
network_iff pins (err e) = ground arith
network_iff pins (ok testnet) = ground (arith, Network-cases pins.network)
network_iff pins (ok mainnet) = ground arith

pub commit_iff :
    (pins : Pins) (r : Result Bytes Bytes) → (check_commit pins r ≡ []) ↔ (r ≡ ok pins.commit)
unfolding check_commit
commit_iff pins (err e) = ground arith
commit_iff pins (ok c) = ground (arith, same_iff c pins.commit)

pub player_iff :
    (pins : Pins) (r : Result Bytes Bytes)
    → (check_player pins r ≡ []) ↔ (r ≡ ok pins.pool_player_id)
unfolding check_player
player_iff pins (err e) = ground arith
player_iff pins (ok c) = ground (arith, same_iff c pins.pool_player_id)

pub checksum_iff :
    (pins : Pins) (local hosted : Option Bytes)
    → (check_checksum pins local hosted ≡ []) ↔ IsReviewed pins local hosted
checksum_iff pins (some sha) hosted = ground (arith, same_iff sha pins.openapi_sha256)
checksum_iff pins none (some sha) = ground (arith, same_iff sha pins.openapi_sha256)
checksum_iff pins none none = ground arith

image_iff :
    (pins : Pins) (reference digest : Bytes) (o : Option ResolvedImage)
    → (check_image pins reference digest o ≡ []) ↔ IsPinned pins digest o
unfolding check_image
image_iff pins reference digest none = ground arith
image_iff pins reference digest (some image) =
    ground (arith, same_iff image.manifest_digest digest, same_iff image.platform pins.platform)

pub append-nil_iff : {A : Type 0} (xs ys : List A) → (xs ++ ys ≡ []) ↔ ((xs ≡ []) × (ys ≡ []))
append-nil_iff [] ys = ground arith
append-nil_iff (x ∷ xs) ys = ground arith

pub images_iff :
    (pins : Pins) (images : Map ResolvedImage) (digests : Map Bytes)
    → (check_images pins images digests ≡ [])
      ↔ All (λ e. IsPinned pins e.1 (get e.0 images)) digests
unfolding check_images
images_iff pins images [] = ground arith
images_iff pins images ((reference, digest) ∷ rest) = ground (
  arith,
  image_iff pins reference digest (get reference images),
  images_iff pins images rest,
  append-nil_iff (check_image pins reference digest (get reference images))
      (check_images pins images rest),
)

model_iff : (e : Bytes) (o : Option ModelValidation) → (check_model e o ≡ []) ↔ IsValid o
unfolding check_model
model_iff e none = ground arith
model_iff e (some v) = ground arith

pub models_iff :
    (m : Map ModelValidation) (es : List Bytes)
    → (check_models m es ≡ []) ↔ All (λ e. IsValid (get e m)) es
unfolding check_models
models_iff m [] = ground arith
models_iff m (e ∷ rest) = ground (
  arith,
  model_iff e (get e m),
  models_iff m rest,
  append-nil_iff (check_model e (get e m)) (check_models m rest),
)

pub runtimes_iff : (cs : List ActiveChallengeRuntime) → (check_runtimes cs ≡ []) ↔ All IsRunnable cs
unfolding check_runtimes
runtimes_iff [] = ground arith
runtimes_iff (c ∷ rest) = ground (arith, runtimes_iff rest)
