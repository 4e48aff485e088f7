-- ===== src/Client/Limits.antt =====
-- crates/tig-client/src/limits.rs: the budget of reads, shared out between the readers. JSON and its
-- accessors are a library's: `parse` reads a text, `field` a member of an object, and `as_ceiling`,
-- `as_share` and `as_u64` a value of the type. A duration is its number of seconds.
pub mod Accepted
pub mod Derived
use tig_mining_pool_public.Common.{
  ℕ, ◌+◌, ◌%◌, min, List, [], ◌∷◌, ◌++◌, map, Option, Bool, ◌&&◌, ◌||◌, false, ltb, leb, ◌==◌,
  Result, ok, err, ◌>>=◌, ok_or, map_err, fail_if, ◌>>◌,
}
use tig_mining_pool_public.Common.Bytes.{Bytes, codes}
use tig_mining_pool_public.Common.Words.{u32_size, u64_size}

pub data TigReader : Type 0 where
  controller gateway : TigReader

abbrev pub all : List TigReader
all = controller ∷ gateway ∷ []

abbrev pub as_str : TigReader → Bytes
as_str controller = codes "controller"
as_str gateway = codes "gateway"

pub record ReadLimits : Type 0 where
  pub requests_per_second : ℕ
  pub burst : ℕ
  pub max_concurrent : ℕ
  pub connect_timeout : ℕ
  pub attempt_timeout : ℕ
  pub call_deadline : ℕ
  pub max_backoff : ℕ
  pub max_attempts : ℕ

pub record ReadPolicy : Type 0 where
  pub ceiling : ReadLimits
  pub controller_share : ReadLimits
  pub gateway_share : ReadLimits
  pub block_poll_interval : ℕ

pub data PolicyError : Type 0 where
  unparseable : Bytes → PolicyError
  missing : Bytes → PolicyError
  wrong_type : Bytes → Bytes → PolicyError
  shares_exceed_ceiling : (rate burst concurrent : ℕ) → ReadLimits → PolicyError

-- `read_limits.pool_ceiling` as it is written.
pub record CeilingWire : Type 0 where
  pub requests_per_second : ℕ
  pub burst : ℕ
  pub max_concurrent : ℕ
  pub connect_timeout_seconds : ℕ
  pub attempt_timeout_seconds : ℕ
  pub call_deadline_seconds : ℕ
  pub max_backoff_seconds : ℕ
  pub max_attempts : ℕ

-- An entry of `read_limits.reader_shares` as it is written.
pub record ShareWire : Type 0 where
  pub requests_per_second : ℕ
  pub burst : ℕ
  pub max_concurrent : ℕ

unfoldable pub for_reader : ReadPolicy → TigReader → ReadLimits
for_reader policy controller = policy.controller_share
for_reader policy gateway = policy.gateway_share

unfoldable pub for_block_poll : ReadPolicy → TigReader → ReadLimits
for_block_poll policy reader =
    let base = for_reader policy reader in
    record base {
      call_deadline = policy.block_poll_interval;
      attempt_timeout = min base.attempt_timeout policy.block_poll_interval;
    }

unfoldable pub clamp : ReadPolicy → ReadLimits → ReadLimits
clamp policy limits = record limits {
  connect_timeout = min limits.connect_timeout policy.ceiling.connect_timeout;
  attempt_timeout = min limits.attempt_timeout policy.ceiling.attempt_timeout;
  call_deadline = min limits.call_deadline policy.ceiling.call_deadline;
  max_backoff = min limits.max_backoff policy.ceiling.max_backoff;
}

-- `iter().sum()` of a type with `size` values, in a build that wraps.
unfoldable pub sum_from : ℕ → ℕ → List ℕ → ℕ
sum_from size acc [] = acc
sum_from size acc (n ∷ rest) = sum_from size ((acc + n) % size) rest

unfoldable pub rate_of : List ReadLimits → ℕ
rate_of shares = sum_from u32_size 0 (map (λ s. s.requests_per_second) shares)

unfoldable pub burst_of : List ReadLimits → ℕ
burst_of shares = sum_from u32_size 0 (map (λ s. s.burst) shares)

unfoldable pub concurrent_of : List ReadLimits → ℕ
concurrent_of shares = sum_from u64_size 0 (map (λ s. s.max_concurrent) shares)

unfoldable pub shares_within_ceiling : ReadPolicy → List ReadLimits → Bool
shares_within_ceiling policy shares =
    leb (rate_of shares) policy.ceiling.requests_per_second
    && leb (burst_of shares) policy.ceiling.burst
    && leb (concurrent_of shares) policy.ceiling.max_concurrent

-- The rate, the burst and the concurrency that a share has to name.
abbrev pub is_share : ReadLimits → ReadLimits → Bool
is_share a limits =
    a.requests_per_second == limits.requests_per_second
    && a.burst == limits.burst
    && a.max_concurrent == limits.max_concurrent

abbrev pub is_any_of : ReadPolicy → List TigReader → ReadLimits → Bool
is_any_of policy [] limits = false
is_any_of policy (reader ∷ rest) limits =
    (is_share (for_reader policy reader) limits || is_share (for_block_poll policy reader) limits)
    || is_any_of policy rest limits

unfoldable pub is_entitled_share : ReadPolicy → ReadLimits → Bool
is_entitled_share policy limits = is_any_of policy all limits

unfoldable pub ceiling_of : CeilingWire → ReadLimits
ceiling_of wire = record {
  requests_per_second = wire.requests_per_second;
  burst = wire.burst;
  max_concurrent = wire.max_concurrent;
  connect_timeout = wire.connect_timeout_seconds;
  attempt_timeout = wire.attempt_timeout_seconds;
  call_deadline = wire.call_deadline_seconds;
  max_backoff = wire.max_backoff_seconds;
  max_attempts = wire.max_attempts;
}

-- The rule on the sum of the shares.
unfoldable pub allocate : ReadPolicy → Result PolicyError ReadPolicy
allocate policy = do
  let allocated = map (λ r. for_reader policy r) all
  fail_if
      (ltb policy.ceiling.requests_per_second (rate_of allocated)
        || ltb policy.ceiling.burst (burst_of allocated)
        || ltb policy.ceiling.max_concurrent (concurrent_of allocated))
      (shares_exceed_ceiling (rate_of allocated) (burst_of allocated) (concurrent_of allocated)
        policy.ceiling)
  ok policy

module _ {Json : Type 0} (parse : Bytes → Result Bytes Json) (field : Bytes → Json → Option Json)
    (as_ceiling : Json → Result Bytes CeilingWire) (as_share : Json → Result Bytes ShareWire)
    (as_u64 : Json → Option ℕ) where
  unfoldable pub share_of : Json → ReadLimits → TigReader → Result PolicyError ReadLimits
  share_of shares_value ceiling reader = do
    let path = codes "read_limits.reader_shares." ++ as_str reader
    entry ← ok_or (field (as_str reader) shares_value) (missing path)
    wire ←
        map_err (λ e. wrong_type path (codes "complete reader share (" ++ e ++ codes ")"))
          (as_share entry)
    ok (record ceiling {
      requests_per_second = wire.requests_per_second;
      burst = wire.burst;
      max_concurrent = wire.max_concurrent;
    })

  -- What follows the reading of the ceiling.
  unfoldable pub from_shares : Json → Json → ReadLimits → Result PolicyError ReadPolicy
  unfolding share_of
  from_shares limits shares_value ceiling = do
    for_controller ← share_of shares_value ceiling controller
    for_gateway ← share_of shares_value ceiling gateway
    interval_value ←
        ok_or (field (codes "block_poll_interval_seconds") limits)
          (missing (codes "read_limits.block_poll_interval_seconds"))
    interval ← ok_or (as_u64 interval_value) (
        wrong_type (codes "read_limits.block_poll_interval_seconds") (codes "non-negative integer"))
    allocate (record {
      ceiling = ceiling;
      controller_share = for_controller;
      gateway_share = for_gateway;
      block_poll_interval = interval;
    })

  unfoldable pub from_config_json : Bytes → Result PolicyError ReadPolicy
  unfolding from_shares
  from_config_json json = do
    root ← map_err unparseable (parse json)
    limits ← ok_or (field (codes "read_limits") root) (missing (codes "read_limits"))
    ceiling_value ←
        ok_or (field (codes "pool_ceiling") limits) (missing (codes "read_limits.pool_ceiling"))
    wire ←
        map_err
          (λ e.
            wrong_type (codes "read_limits.pool_ceiling")
              (codes "complete ceiling (" ++ e ++ codes ")"))
          (as_ceiling ceiling_value)
    shares_value ←
        ok_or (field (codes "reader_shares") limits) (missing (codes "read_limits.reader_shares"))
    from_shares limits shares_value (ceiling_of wire)
