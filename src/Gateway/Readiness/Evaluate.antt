-- ===== src/Gateway/Readiness/Evaluate.antt =====
-- crates/tig-gateway/src/readiness.rs: `evaluate`, which makes all the checks.
use tig_mining_pool_public.Common.{List, [], ◌∷◌, ◌++◌, Option, Result, ok, err, compare, Ordering}
use tig_mining_pool_public.Common.Bytes.{Bytes, codes}
use tig_mining_pool_public.Common.Sort.{sort_by}
use tig_mining_pool_public.Gateway.Network.{Network}
use tig_mining_pool_public.Gateway.Readiness.{
  required_models, number, Failure, Pins, ModelValidation, ActiveChallengeRuntime, Evidence,
  WriteReady,
}
use tig_mining_pool_public.Gateway.Readiness.Checks.{
  fail, check_network, check_commit, check_containers, check_openapi, by_endpoint, check_models,
  check_runtimes, check_fixtures, check_api_key, check_player,
}
use tig_mining_pool_public.Gateway.Readiness

unfoldable pub check_responses : Result Bytes (List ModelValidation) → List Failure
unfolding by_endpoint check_models
check_responses (err e) =
    fail Readiness.response_models (codes "could not validate the required responses: " ++ e)
check_responses (ok validations) = check_models (by_endpoint validations []) required_models

unfoldable pub check_challenges : Result Bytes (List ActiveChallengeRuntime) → List Failure
unfolding check_runtimes
check_challenges (err e) =
    fail Readiness.challenge_runtimes (codes "could not determine the active challenges: " ++ e)
check_challenges (ok challenges) = check_runtimes challenges

unfoldable pub failures_of : Pins → Evidence → List Failure
failures_of pins evidence =
    check_network pins evidence.network
    ++ (check_commit pins evidence.commit
        ++ ((check_containers pins evidence.resolved_images).0
            ++ (check_openapi pins evidence.openapi
                ++ (check_responses evidence.models
                    ++ (check_challenges evidence.active_challenges
                        ++ (check_fixtures evidence.fixtures
                            ++ (check_api_key evidence.api_key
                                ++ check_player pins evidence.confirmed_pool_player_id)))))))

abbrev pub by_check : Failure → Failure → Ordering
by_check a b = compare (number a.check) (number b.check)

-- The permission, where no check failed.
abbrev pub grant :
    Option Bytes
    → List Failure
    → Result Bytes Network
    → Result Bytes Bytes
    → Result (List Failure) WriteReady
grant unresolved [] (ok network) (ok commit) =
    ok (record { network = network; commit = commit; containers_unresolved = unresolved })
grant unresolved [] (ok network) (err e) = err []
grant unresolved [] (err e) commit = err []
grant unresolved (f ∷ rest) network commit = err (sort_by by_check (f ∷ rest))

unfoldable pub evaluate : Pins → Evidence → Result (List Failure) WriteReady
unfolding failures_of
evaluate pins evidence =
    grant (check_containers pins evidence.resolved_images).1 (failures_of pins evidence)
      evidence.network evidence.commit
