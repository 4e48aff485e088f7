-- ===== src/Client/Limits/Derived.antt =====
-- crates/tig-client/src/limits.rs: the limits made from a policy.
use tig_mining_pool_public.Common.{◌≤◌, ◌≡◌, true, refl, arith}
use tig_mining_pool_public.Client.Limits.{
  TigReader, controller, gateway, ReadLimits, ReadPolicy, for_reader, for_block_poll, clamp,
  is_entitled_share,
}

-- No duration is longer than another's.
pub record IsStricter (a b : ReadLimits) : Type 0 where
  pub connect : a.connect_timeout ≤ b.connect_timeout
  pub attempt : a.attempt_timeout ≤ b.attempt_timeout
  pub deadline : a.call_deadline ≤ b.call_deadline
  pub backoff : a.max_backoff ≤ b.max_backoff

-- Clamped limits are stricter than the limits given and than the ceiling, are as entitled as the
-- limits given, and are not changed by clamping again; and limits that are stricter than both are
-- stricter than the clamped ones.
pub clamp-IsStricter :
    (policy : ReadPolicy) (limits other : ReadLimits)
    → IsStricter other limits
    → IsStricter other policy.ceiling
    → IsStricter (clamp policy limits) limits
      × IsStricter (clamp policy limits) policy.ceiling
      × (is_entitled_share policy (clamp policy limits) ≡ is_entitled_share policy limits)
      × (clamp policy (clamp policy limits) ≡ clamp policy limits)
      × IsStricter other (clamp policy limits)
unfolding clamp is_entitled_share
clamp-IsStricter policy limits other h k = (
  record {
    connect = omega arith;
    attempt = omega arith;
    deadline = omega arith;
    backoff = omega arith;
  },
  record {
    connect = omega arith;
    attempt = omega arith;
    deadline = omega arith;
    backoff = omega arith;
  },
  refl,
  ground arith,
  record {
    connect = omega (arith, h.connect, k.connect);
    attempt = omega (arith, h.attempt, k.attempt);
    deadline = omega (arith, h.deadline, k.deadline);
    backoff = omega (arith, h.backoff, k.backoff);
  },
)

-- Both kinds of limits that a reader is given are entitled ones, and neither an attempt of the block
-- poll nor its whole call outlasts the poll's interval.
pub for_block_poll_in_time :
    (policy : ReadPolicy) (reader : TigReader)
    → (is_entitled_share policy (for_reader policy reader) ≡ true)
      × (is_entitled_share policy (for_block_poll policy reader) ≡ true)
      × ((for_block_poll policy reader).attempt_timeout ≤ policy.block_poll_interval)
      × ((for_block_poll policy reader).call_deadline ≤ policy.block_poll_interval)
      × ((for_block_poll policy reader).attempt_timeout
          ≤ (for_reader policy reader).attempt_timeout)
unfolding is_entitled_share for_block_poll for_reader
for_block_poll_in_time policy controller =
    (ground arith, ground arith, omega arith, omega arith, omega arith)
for_block_poll_in_time policy gateway =
    (ground arith, ground arith, omega arith, omega arith, omega arith)
