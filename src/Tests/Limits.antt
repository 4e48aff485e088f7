-- ===== src/Tests/Limits.antt =====
-- A policy read from a tree whose nodes are numbers, and two readers that share its ceiling.
use tig_mining_pool_public.Common.{ℕ, ◌≡◌, [], Option, some, ◌==◌, if◌then◌else◌, Result, ok, refl}
use tig_mining_pool_public.Common.Bytes.{Bytes, codes, same, cmp}
use tig_mining_pool_public.Client.Limits.{
  ReadLimits, ReadPolicy, CeilingWire, ShareWire, for_reader, share_of, from_shares,
  from_config_json, ceiling_of, allocate, rate_of, burst_of, concurrent_of, sum_from,
}

abbrev parse : Bytes → Result Bytes ℕ
parse text = ok 0

abbrev field : Bytes → ℕ → Option ℕ
field name node =
    if node == 0
    then some 1
    else (if same name (codes "pool_ceiling")
        then some 2
        else (if same name (codes "reader_shares")
            then some 3
            else (if same name (codes "controller") then some 4 else some 5)))

abbrev as_ceiling : ℕ → Result Bytes CeilingWire
as_ceiling node = ok (record {
  requests_per_second = 5;
  burst = 10;
  max_concurrent = 4;
  connect_timeout_seconds = 5;
  attempt_timeout_seconds = 30;
  call_deadline_seconds = 300;
  max_backoff_seconds = 60;
  max_attempts = 5;
})

abbrev as_share : ℕ → Result Bytes ShareWire
as_share node =
    if node == 4
    then ok (record { requests_per_second = 4; burst = 8; max_concurrent = 3 })
    else ok (record { requests_per_second = 1; burst = 2; max_concurrent = 1 })

abbrev as_u64 : ℕ → Option ℕ
as_u64 node = some 20

abbrev pool_ceiling : ReadLimits
pool_ceiling = record {
  requests_per_second = 5;
  burst = 10;
  max_concurrent = 4;
  connect_timeout = 5;
  attempt_timeout = 30;
  call_deadline = 300;
  max_backoff = 60;
  max_attempts = 5;
}

abbrev policy : ReadPolicy
policy = record {
  ceiling = pool_ceiling;
  controller_share = record pool_ceiling { requests_per_second = 4; burst = 8; max_concurrent = 3 };
  gateway_share = record pool_ceiling { requests_per_second = 1; burst = 2; max_concurrent = 1 };
  block_poll_interval = 20;
}

loaded : from_config_json parse field as_ceiling as_share as_u64 [] ≡ ok policy
unfolding from_config_json from_shares share_of ceiling_of allocate rate_of burst_of concurrent_of
    sum_from for_reader cmp
loaded = refl

abbrev hurried : ReadLimits
hurried = record pool_ceiling { attempt_timeout = 10; call_deadline = 900 }

abbrev brief : ReadLimits
brief = record pool_ceiling {
  connect_timeout = 1;
  attempt_timeout = 2;
  call_deadline = 3;
  max_backoff = 4;
}
