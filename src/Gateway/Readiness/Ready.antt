-- ===== src/Gateway/Readiness/Ready.antt =====
-- crates/tig-gateway/src/readiness.rs: what `evaluate` grants permission on.
use tig_mining_pool_public.Common.{
  All, ◌≡◌, ◌↔◌, List, [], ◌∷◌, ◌++◌, Option, none, some, Result, ok, ok_inj, err, arith, sym, ap,
  ◌∙◌,
}
use tig_mining_pool_public.Common.Bytes.{Bytes}
use tig_mining_pool_public.Common.Map.{get}
use tig_mining_pool_public.Gateway.Network.{Network, testnet}
use tig_mining_pool_public.Gateway.Readiness.{
  required_models, Failure, Pins, ResolvedImage, ImageObservation, OpenApiObservation,
  ModelValidation, ActiveChallengeRuntime, FixtureOutcome, ApiKeyPlacement, Evidence, WriteReady,
}
use tig_mining_pool_public.Gateway.Readiness.Checks.{
  check_network, check_commit, by_reference, check_observed, check_containers, check_openapi,
  by_endpoint, check_fixtures, check_api_key, check_player,
}
use tig_mining_pool_public.Gateway.Readiness.Evaluate.{
  check_responses, check_challenges, failures_of, grant, evaluate,
}
use tig_mining_pool_public.Gateway.Readiness.Asked.{
  AreContained, IsReviewed, IsValid, IsRunnable, IsReplayed, IsIsolated, Saw, IsReady,
}
use tig_mining_pool_public.Gateway.Readiness.Reviews.{
  network_iff, commit_iff, player_iff, checksum_iff, append-nil_iff, images_iff, models_iff,
  runtimes_iff,
}

observed_iff :
    (pins : Pins) (resolved : Option (List ResolvedImage)) (reason u : Option Bytes)
    → (((check_observed pins resolved reason).0 ≡ [])
        × ((check_observed pins resolved reason).1 ≡ u))
      ↔ AreContained pins resolved reason u
observed_iff pins none none u = ground arith
observed_iff pins none (some reason) u = ground arith
observed_iff pins (some images) reason u =
    ground (arith, images_iff pins (by_reference images []) pins.image_digests)

containers_iff :
    (pins : Pins) (r : Result Bytes ImageObservation) (u : Option Bytes)
    → (((check_containers pins r).0 ≡ []) × ((check_containers pins r).1 ≡ u))
      ↔ Saw r (λ o. AreContained pins o.resolved o.reviewed_unresolved u)
unfolding check_containers
containers_iff pins (err e) u = ground arith
containers_iff pins (ok o) u = observed_iff pins o.resolved o.reviewed_unresolved u

openapi_iff :
    (pins : Pins) (r : Result Bytes OpenApiObservation)
    → (check_openapi pins r ≡ [])
      ↔ Saw r (λ o. IsReviewed pins o.reviewed_local_override o.hosted_sha256)
unfolding check_openapi
openapi_iff pins (err e) = ground arith
openapi_iff pins (ok o) = checksum_iff pins o.reviewed_local_override o.hosted_sha256

responses_iff :
    (r : Result Bytes (List ModelValidation))
    → (check_responses r ≡ [])
      ↔ Saw r (λ vs. All (λ e. IsValid (get e (by_endpoint vs []))) required_models)
unfolding check_responses
responses_iff (err e) = ground arith
responses_iff (ok vs) = models_iff (by_endpoint vs []) required_models

challenges_iff :
    (r : Result Bytes (List ActiveChallengeRuntime))
    → (check_challenges r ≡ []) ↔ Saw r (All IsRunnable)
unfolding check_challenges
challenges_iff (err e) = ground arith
challenges_iff (ok cs) = runtimes_iff cs

fixtures_iff : (r : Result Bytes FixtureOutcome) → (check_fixtures r ≡ []) ↔ Saw r IsReplayed
unfolding check_fixtures
fixtures_iff (err e) = ground arith
fixtures_iff (ok o) = ground arith

api_key_iff : (r : Result Bytes ApiKeyPlacement) → (check_api_key r ≡ []) ↔ Saw r IsIsolated
unfolding check_api_key
api_key_iff (err e) = ground arith
api_key_iff (ok o) = ground arith

nil_and :
    {P : Type 0} (xs : List Failure) {ys : List Failure}
    → (ys ≡ []) ↔ P
    → (xs ++ ys ≡ []) ↔ ((xs ≡ []) × P)
nil_and xs {ys} h = ground (arith, append-nil_iff xs ys, h)

-- The failures are none exactly where each check adds none.
abbrev Clean : Pins → Evidence → Type 0
Clean pins ev =
    (check_network pins ev.network ≡ [])
    × ((check_commit pins ev.commit ≡ [])
        × (((check_containers pins ev.resolved_images).0 ≡ [])
            × ((check_openapi pins ev.openapi ≡ [])
                × ((check_responses ev.models ≡ [])
                    × ((check_challenges ev.active_challenges ≡ [])
                        × ((check_fixtures ev.fixtures ≡ [])
                            × ((check_api_key ev.api_key ≡ [])
                                × (check_player pins ev.confirmed_pool_player_id ≡ []))))))))

failures_of-Clean : (pins : Pins) (ev : Evidence) → (failures_of pins ev ≡ []) ↔ Clean pins ev
unfolding failures_of
failures_of-Clean pins ev = nil_and (check_network pins ev.network) (
    nil_and (check_commit pins ev.commit) (
      nil_and (check_containers pins ev.resolved_images).0 (
        nil_and (check_openapi pins ev.openapi) (
          nil_and (check_responses ev.models) (
            nil_and (check_challenges ev.active_challenges) (
              nil_and (check_fixtures ev.fixtures) (
                append-nil_iff (check_api_key ev.api_key)
                  (check_player pins ev.confirmed_pool_player_id))))))))

grant_of :
    {u : Option Bytes} {fs : List Failure} {n : Result Bytes Network} {c : Result Bytes Bytes}
    {w : WriteReady}
    → fs ≡ []
    → n ≡ ok w.network
    → c ≡ ok w.commit
    → u ≡ w.containers_unresolved
    → grant u fs n c ≡ ok w
grant_of {w} f n c u = λ i. grant (u i) (f i) (n i) (c i)

grant_inv :
    (u : Option Bytes) (fs : List Failure) (n : Result Bytes Network) (c : Result Bytes Bytes)
    (w : WriteReady)
    → grant u fs n c ≡ ok w
    → (fs ≡ []) × (n ≡ ok w.network) × (c ≡ ok w.commit) × (u ≡ w.containers_unresolved)
grant_inv u [] (ok n) (ok c) w e = ground arith
grant_inv u [] (ok n) (err c) w e = cc
grant_inv u [] (err n) c w e = cc
grant_inv u (f ∷ fs) n c w e = cc

-- Permission is granted exactly where the nine checks hold of the evidence; it is then permission for
-- the testnet at the pinned commit, and it names the reason, if any, for which the containers stayed
-- unresolved.
pub evaluate-IsReady :
    (pins : Pins) (evidence : Evidence) (w : WriteReady)
    → (evaluate pins evidence ≡ ok w) ↔ (
        IsReady pins evidence w.containers_unresolved
        × (w.network ≡ testnet)
        × (w.commit ≡ pins.commit))
unfolding evaluate
evaluate-IsReady pins evidence w = (
  λ e.
      let (f, n, c, u) = grant_inv _ _ evidence.network evidence.commit w e in
      let (a1, (a2, (a3, (a4, (a5, (a6, (a7, (a8, a9)))))))) =
        (failures_of-Clean pins evidence).0 f in
      let net = (network_iff pins evidence.network).0 a1 in
      let at = (commit_iff pins evidence.commit).0 a2 in
      (
        record {
          on_testnet = net;
          at_commit = at;
          contained =
              (containers_iff pins evidence.resolved_images w.containers_unresolved).0 (a3, u);
          reviewed = (openapi_iff pins evidence.openapi).0 a4;
          validated = (responses_iff evidence.models).0 a5;
          runnable = (challenges_iff evidence.active_challenges).0 a6;
          replayed = (fixtures_iff evidence.fixtures).0 a7;
          isolated = (api_key_iff evidence.api_key).0 a8;
          identified = (player_iff pins evidence.confirmed_pool_player_id).0 a9;
        },
        ok_inj (sym n ∙ net.0),
        ok_inj (sym c ∙ at),
      ),
  λ h.
      let r = h.0 in
      let (a3, u) =
        (containers_iff pins evidence.resolved_images w.containers_unresolved).1 r.contained in
      let f : failures_of pins evidence ≡ [] = (failures_of-Clean pins evidence).1 (
        (network_iff pins evidence.network).1 r.on_testnet,
        (
          (commit_iff pins evidence.commit).1 r.at_commit,
          (
            a3,
            (
              (openapi_iff pins evidence.openapi).1 r.reviewed,
              (
                (responses_iff evidence.models).1 r.validated,
                (
                  (challenges_iff evidence.active_challenges).1 r.runnable,
                  (
                    (fixtures_iff evidence.fixtures).1 r.replayed,
                    (
                      (api_key_iff evidence.api_key).1 r.isolated,
                      ((player_iff pins evidence.confirmed_pool_player_id).1 r.identified),
                    ),
                  ),
                ),
              ),
            ),
          ),
        ),
      ) in
      grant_of f (r.on_testnet.0 ∙ ap ok (sym h.1)) (r.at_commit ∙ ap ok (sym h.2)) u,
)
