-- ===== src/Tests/Checks.antt =====
-- Evidence that passes the nine checks, with containers that stay unresolved for a stated reason.
use tig_mining_pool_public.Common.{◌≡◌, ◌↔◌, [], ◌∷◌, none, some, true, false, ok}
use tig_mining_pool_public.Common.Bytes.{Bytes, codes}
use tig_mining_pool_public.Gateway.Network.{testnet}
use tig_mining_pool_public.Gateway.Readiness.{Pins, Evidence, ModelValidation, WriteReady}
use tig_mining_pool_public.Gateway.Readiness.Evaluate.{evaluate}
use tig_mining_pool_public.Gateway.Readiness.Asked.{IsReady}
use tig_mining_pool_public.Gateway.Readiness.Ready.{evaluate-IsReady}

abbrev pins : Pins
pins = record {
  network = testnet;
  commit = codes "abc";
  image_digests = (codes "runtime:1", codes "sha256:1") ∷ [];
  image_names = codes "runtime" ∷ [];
  platform = codes "linux/amd64";
  openapi_sha256 = codes "123";
  pool_player_id = codes "pool";
}

abbrev valid_at : Bytes → ModelValidation
valid_at endpoint = record { endpoint = endpoint; valid = true; detail = [] }

abbrev evidence : Evidence
evidence = record {
  network = ok testnet;
  commit = ok (codes "abc");
  resolved_images = ok (record { resolved = none; reviewed_unresolved = some (codes "air gap") });
  openapi = ok (record { hosted_sha256 = some (codes "123"); reviewed_local_override = none });
  models = ok (
      valid_at (codes "get-opow")
      ∷ valid_at (codes "get-block")
      ∷ valid_at (codes "get-challenges")
      ∷ valid_at (codes "get-benchmarks")
      ∷ valid_at (codes "get-algorithms")
      ∷ []);
  active_challenges = ok (
      record { challenge_id = codes "c001"; runtime_pinned = true; compute_path_supported = true }
      ∷ []);
  fixtures = ok (record {
    lossless_numeric_parsing = true;
    canonical_request_serialization = true;
    detail = [];
  });
  api_key = ok (record { present_in_gateway = true; readable_by_member_services = false });
  confirmed_pool_player_id = ok (codes "pool");
}

abbrev granted : WriteReady
granted = record {
  network = testnet;
  commit = codes "abc";
  containers_unresolved = some (codes "air gap");
}

evaluate-IsReady_example : (evaluate pins evidence ≡ ok granted) ↔ (
    IsReady pins evidence (some (codes "air gap"))
    × (testnet ≡ testnet)
    × (codes "abc" ≡ codes "abc"))
evaluate-IsReady_example = evaluate-IsReady pins evidence granted
