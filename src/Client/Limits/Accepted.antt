-- ===== src/Client/Limits/Accepted.antt =====
-- crates/tig-client/src/limits.rs: which policies are loaded.
use tig_mining_pool_public.Common.{
  ℕ, ok_or, map_err, ◌++◌, ◌+◌, ◌≤◌, ◌<◌, ◌≡◌, [], ◌∷◌, Option, Result, ok, >>=-eq-ok, arith, true,
  subst,
}
use tig_mining_pool_public.Common.Bytes.{Bytes, codes}
use tig_mining_pool_public.Common.Words.{u32_size, u64_size}
use tig_mining_pool_public.Client.Limits.{
  TigReader, controller, gateway, ReadLimits, ReadPolicy, CeilingWire, ShareWire, for_reader,
  sum_from, rate_of, burst_of, concurrent_of, allocate, ceiling_of, share_of, from_shares,
  from_config_json, shares_within_ceiling, missing, wrong_type, unparseable,
}

-- The shares of the readers, added without a wrap, are within the ceiling.
pub record IsWithin (p : ReadPolicy) : Type 0 where
  pub rate :
      p.controller_share.requests_per_second + p.gateway_share.requests_per_second
      ≤ p.ceiling.requests_per_second
  pub bursts : p.controller_share.burst + p.gateway_share.burst ≤ p.ceiling.burst
  pub concurrent :
      p.controller_share.max_concurrent + p.gateway_share.max_concurrent ≤ p.ceiling.max_concurrent

-- The sums of the shares are values of their types.
pub record HasSums (p : ReadPolicy) : Type 0 where
  pub rate_fits :
      p.controller_share.requests_per_second + p.gateway_share.requests_per_second < u32_size
  pub bursts_fit : p.controller_share.burst + p.gateway_share.burst < u32_size
  pub concurrent_fits :
      p.controller_share.max_concurrent + p.gateway_share.max_concurrent < u64_size

-- A reader's share is timed as the ceiling is.
pub record IsTimed (p : ReadPolicy) (s : ReadLimits) : Type 0 where
  pub connect : s.connect_timeout ≡ p.ceiling.connect_timeout
  pub attempt : s.attempt_timeout ≡ p.ceiling.attempt_timeout
  pub deadline : s.call_deadline ≡ p.ceiling.call_deadline
  pub backoff : s.max_backoff ≡ p.ceiling.max_backoff
  pub attempts : s.max_attempts ≡ p.ceiling.max_attempts

allocate-IsWithin : (p q : ReadPolicy) → allocate p ≡ ok q → (p ≡ q) × (HasSums p → IsWithin p)
unfolding allocate rate_of burst_of concurrent_of sum_from for_reader
allocate-IsWithin p q e = (
  ground arith,
  λ h. record {
    rate = ground (arith, h.rate_fits);
    bursts = ground (arith, h.bursts_fit);
    concurrent = ground (arith, h.concurrent_fits);
  },
)

allocate-within :
    (p q : ReadPolicy)
    → allocate p ≡ ok q
    → shares_within_ceiling q (for_reader q controller ∷ for_reader q gateway ∷ []) ≡ true
unfolding allocate shares_within_ceiling
allocate-within p q e = ground arith

module _ {Json : Type 0} (parse : Bytes → Result Bytes Json) (field : Bytes → Json → Option Json)
    (as_ceiling : Json → Result Bytes CeilingWire) (as_share : Json → Result Bytes ShareWire)
    (as_u64 : Json → Option ℕ) where
  abbrev IsTimedBy : ReadLimits → ReadLimits → Type 0
  IsTimedBy c s =
      (s.connect_timeout ≡ c.connect_timeout)
      × (s.attempt_timeout ≡ c.attempt_timeout)
      × (s.call_deadline ≡ c.call_deadline)
      × (s.max_backoff ≡ c.max_backoff)
      × (s.max_attempts ≡ c.max_attempts)

  share_of-IsTimedBy :
      (j : Json) (c : ReadLimits) (r : TigReader) {s : ReadLimits}
      → share_of parse field as_ceiling as_share as_u64 j c r ≡ ok s
      → IsTimedBy c s
  unfolding share_of
  share_of-IsTimedBy j c r e = ground arith

  abbrev Loaded : ReadPolicy → Type 0
  Loaded p =
      (shares_within_ceiling p (for_reader p controller ∷ for_reader p gateway ∷ []) ≡ true)
      × IsTimed p (for_reader p controller)
      × IsTimed p (for_reader p gateway)
      × (HasSums p → IsWithin p)

  IsTimedBy-IsTimed : (p : ReadPolicy) (s : ReadLimits) → IsTimedBy p.ceiling s → IsTimed p s
  IsTimedBy-IsTimed p s (h1, h2, h3, h4, h5) = record {
    connect = h1;
    attempt = h2;
    deadline = h3;
    backoff = h4;
    attempts = h5;
  }

  allocate-Loaded :
      (q p : ReadPolicy)
      → IsTimedBy q.ceiling q.controller_share
      → IsTimedBy q.ceiling q.gateway_share
      → allocate q ≡ ok p
      → Loaded p
  unfolding for_reader
  allocate-Loaded q p hc hg e =
      let (same, w) = allocate-IsWithin q p e in
      (
        allocate-within q p e,
        subst (λ x. IsTimed x x.controller_share) same (IsTimedBy-IsTimed q q.controller_share hc),
        subst (λ x. IsTimed x x.gateway_share) same (IsTimedBy-IsTimed q q.gateway_share hg),
        subst (λ x. HasSums x → IsWithin x) same w,
      )

  from_shares-Loaded :
      (l j : Json) (c : ReadLimits) (p : ReadPolicy)
      → from_shares parse field as_ceiling as_share as_u64 l j c ≡ ok p
      → Loaded p
  unfolding from_shares
  from_shares-Loaded l j c p e =
      let (s, es, e1) =
        >>=-eq-ok (share_of parse field as_ceiling as_share as_u64 j c controller) _ e in
      let (t, et, e2) =
        >>=-eq-ok (share_of parse field as_ceiling as_share as_u64 j c gateway) _ e1 in
      let (v, _, e3) =
        >>=-eq-ok
          (ok_or (field (codes "block_poll_interval_seconds") l)
            (missing (codes "read_limits.block_poll_interval_seconds")))
          _ e2 in
      let (n, _, e4) =
        >>=-eq-ok
          (ok_or (as_u64 v) (
            wrong_type (codes "read_limits.block_poll_interval_seconds")
              (codes "non-negative integer")))
          _ e3 in
      allocate-Loaded
        (record { ceiling = c; controller_share = s; gateway_share = t; block_poll_interval = n }) p
        (share_of-IsTimedBy j c controller es) (share_of-IsTimedBy j c gateway et) e4

  from_config_json_inv :
      (json : Bytes) {p : ReadPolicy}
      → from_config_json parse field as_ceiling as_share as_u64 json ≡ ok p
      → (l : Json) × (j : Json) × (c : ReadLimits) × (from_shares parse field as_ceiling as_share
            as_u64 l j c
          ≡ ok p)
  unfolding from_config_json
  from_config_json_inv json e =
      let (root, _, e1) = >>=-eq-ok (map_err unparseable (parse json)) _ e in
      let (l, _, e2) =
        >>=-eq-ok (ok_or (field (codes "read_limits") root) (missing (codes "read_limits"))) _ e1 in
      let (v, _, e3) =
        >>=-eq-ok
          (ok_or (field (codes "pool_ceiling") l) (missing (codes "read_limits.pool_ceiling"))) _
          e2 in
      let (wire, _, e4) =
        >>=-eq-ok
          (map_err
            (λ x.
              wrong_type (codes "read_limits.pool_ceiling")
                (codes "complete ceiling (" ++ x ++ codes ")"))
            (as_ceiling v))
          _ e3 in
      let (j, _, e5) =
        >>=-eq-ok
          (ok_or (field (codes "reader_shares") l) (missing (codes "read_limits.reader_shares"))) _
          e4 in
      (l, j, ceiling_of wire, e5)

  -- A policy that is loaded, where the sums of its shares are values of their types, passes its own
  -- test of the shares; they are within the ceiling, added without a wrap; and each reader's share is
  -- timed as the ceiling is.
  pub from_config_json-IsWithin :
      (json : Bytes) (p : ReadPolicy)
      → from_config_json parse field as_ceiling as_share as_u64 json ≡ ok p
      → HasSums p
      → (shares_within_ceiling p (for_reader p controller ∷ for_reader p gateway ∷ []) ≡ true)
        × IsTimed p (for_reader p controller)
        × IsTimed p (for_reader p gateway)
        × IsWithin p
  from_config_json-IsWithin json p e sums =
      let (l, j, c, f) = from_config_json_inv json e in
      let (a, b, d, w) = from_shares-Loaded l j c p f in (a, b, d, w sums)
