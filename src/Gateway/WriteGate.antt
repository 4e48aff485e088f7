-- ===== src/Gateway/WriteGate.antt =====
-- crates/tig-gateway/src/write_gate.rs: permission to write while the process runs. An operation runs
-- under the gate's lock, so it is a function of what the lock holds; logging is left out.
pub mod Steps
pub mod Counted
pub mod Closed
use tig_mining_pool_public.Common.{
  ℕ, ◌+◌, ◌-◌, ◌%◌, List, [], ◌∷◌, ◌++◌, map, Option, none, some, Bool, true, false, Result, ok,
  err,
}
use tig_mining_pool_public.Common.Bytes.{Bytes, codes}
use tig_mining_pool_public.Common.Words.{u64_size}
use tig_mining_pool_public.Gateway.Readiness.{Check, number, WriteReady}

pub data Revocation : Type 0 where
  authentication : Bytes → Revocation
  compatibility : List Check → Bytes → Revocation

abbrev pub category : Revocation → Bytes
category (authentication detail) = codes "authentication"
category (compatibility failed detail) = codes "compatibility"

abbrev pub failed_checks : Revocation → List Check
failed_checks (authentication detail) = []
failed_checks (compatibility failed detail) = failed

abbrev pub detail_of : Revocation → Bytes
detail_of (authentication detail) = detail
detail_of (compatibility failed detail) = detail

-- `join(",")`
unfoldable pub join : List Bytes → Bytes
join [] = []
join (part ∷ []) = part
join (part ∷ next ∷ rest) = part ++ (codes "," ++ join (next ∷ rest))

-- The number of a check has one digit.
abbrev pub digit : ℕ → Bytes
digit n = (48 + n) ∷ []

unfoldable pub failed_check_numbers : Revocation → Bytes
unfolding join number
failed_check_numbers revocation = join (map (λ c. digit (number c)) (failed_checks revocation))

pub data State : Type 0 where
  ready : WriteReady → State
  revoked : Revocation → State

pub record Inner : Type 0 where
  pub state : State
  pub in_flight : ℕ

unfoldable pub open_gate : WriteReady → Inner
open_gate w = record { state = ready w; in_flight = 0 }

-- A write begins with a permit, which holds the decision that it was admitted under.
abbrev pub begin_in : State → Inner → Inner × Result Revocation WriteReady
begin_in (revoked cause) inner = (inner, err cause)
begin_in (ready w) inner = (record inner { in_flight = (inner.in_flight + 1) % u64_size }, ok w)

unfoldable pub begin_write : Inner → Inner × Result Revocation WriteReady
begin_write inner = begin_in inner.state inner

abbrev pub revoke_in : State → Revocation → Inner → Inner × Bool
revoke_in (revoked first) cause inner = (inner, false)
revoke_in (ready w) cause inner = (record inner { state = revoked cause }, true)

unfoldable pub revoke : Revocation → Inner → Inner × Bool
revoke cause inner = revoke_in inner.state cause inner

abbrev pub restore_in : State → WriteReady → Inner → Inner × Bool
restore_in (ready old) w inner = (inner, false)
restore_in (revoked cause) w inner = (record inner { state = ready w }, true)

unfoldable pub restore : WriteReady → Inner → Inner × Bool
restore w inner = restore_in inner.state w inner

-- `WritePermit::drop`, which subtracts and stops at zero.
unfoldable pub drop : Inner → Inner
drop inner = record inner { in_flight = inner.in_flight - 1 }

abbrev pub is_ready_state : State → Bool
is_ready_state (ready w) = true
is_ready_state (revoked cause) = false

unfoldable pub is_ready : Inner → Bool
is_ready inner = is_ready_state inner.state

abbrev pub revocation_of : State → Option Revocation
revocation_of (ready w) = none
revocation_of (revoked cause) = some cause

unfoldable pub revocation : Inner → Option Revocation
revocation inner = revocation_of inner.state
