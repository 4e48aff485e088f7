-- ===== src/Workflow/Lease.antt =====
-- crates/pool-workflow/src/lease.rs: leases on long work and their fence tokens, over the table
-- pool.work_lease and a clock in whole seconds. An error of the database is `unavailable`, without
-- the driver's text.
pub mod Steps
pub mod Fences
pub mod Superseded
pub mod Reclaimed
pub mod Exclusive
use tig_mining_pool_public.Common.{
  ℕ, ◌+◌, ◌-◌, Bool, true, false, not, ◌&&◌, ◌||◌, ltb, leb, ◌==◌, if◌then◌else◌, Option, none,
  some, List, [], ◌∷◌, Result, ok, err,
}
use tig_mining_pool_public.Common.Bytes.{Bytes, codes, same}
use tig_mining_pool_public.Common.Int.{ℤ, pos, negsuc, i64_max}
use tig_mining_pool_public.Gateway.Network.{Network, is_same}

pub data LeaseKind : Type 0 where
  precommit_transmit proof_build package_ingest : LeaseKind

abbrev pub as_str : LeaseKind → Bytes
as_str precommit_transmit = codes "PRECOMMIT_TRANSMIT"
as_str proof_build = codes "PROOF_BUILD"
as_str package_ingest = codes "PACKAGE_INGEST"

-- The primary key of pool.work_lease.
pub record Key : Type 0 where
  pub network : Network
  pub workflow_id : Bytes
  pub kind : LeaseKind

pub record Lease : Type 0 where
  pub key : Key
  pub fence_token : ℕ
  pub lease_owner : Bytes

pub data LeaseError : Type 0 where
  unavailable : LeaseError
  still_held : Key → Bytes → ℕ → LeaseError
  fence_lost : Key → ℕ → ℕ → LeaseError
  zero_duration : LeaseError

-- A row of pool.work_lease, without its key.
pub record Row : Type 0 where
  pub fence_token : ℕ
  pub lease_owner : Bytes
  pub lease_until : ℕ

-- The database: its clock, whether a time with so many seconds added to it is one that the database
-- has, the workflows that a row may refer to, and the rows by their key.
pub record Store : Type 0 where
  pub now : ℕ
  pub in_range : ℕ → ℕ → Bool
  pub has_workflow : Network → Bytes → Bool
  pub rows : Key → Option Row

abbrev pub is_kind : LeaseKind → LeaseKind → Bool
is_kind precommit_transmit precommit_transmit = true
is_kind proof_build proof_build = true
is_kind package_ingest package_ingest = true
is_kind _ _ = false

abbrev pub is_key : Key → Key → Bool
is_key a b =
    is_same a.network b.network && same a.workflow_id b.workflow_id && is_kind a.kind b.kind

abbrev pub set : Key → Row → Store → Store
set key row s = record s { rows = λ other. if is_key other key then some row else s.rows other }

abbrev pub is_empty : Bytes → Bool
is_empty [] = true
is_empty (c ∷ cs) = false

abbrev pub granted : Key → Bytes → ℕ → ℕ → Store → Store × Result LeaseError Lease
granted key owner fence until s = (
  set key (record { fence_token = fence; lease_owner = owner; lease_until = until }) s,
  ok (record { key = key; fence_token = fence; lease_owner = owner }),
)

-- The row that the key has, if any. A fence beyond a `bigint` is an error of the database.
abbrev pub claim_row : Key → Bytes → ℕ → Option Row → Store → Store × Result LeaseError Lease
claim_row key owner seconds none s =
    if s.has_workflow key.network key.workflow_id
    then granted key owner 1 (s.now + seconds) s
    else (s, err unavailable)
claim_row key owner seconds (some row) s =
    if leb row.lease_until s.now || same row.lease_owner owner
    then (if ltb row.fence_token i64_max
        then granted key owner (row.fence_token + 1) (s.now + seconds) s
        else (s, err unavailable))
    else (s, err (still_held key row.lease_owner (row.lease_until - s.now)))

abbrev pub claim_for : Key → Bytes → ℕ → Store → Store × Result LeaseError Lease
claim_for key owner seconds s =
    if seconds == 0
    then (s, err zero_duration)
    else (if is_empty owner || not (s.in_range s.now seconds)
        then (s, err unavailable)
        else claim_row key owner seconds (s.rows key) s)

-- `claim`
unfoldable pub claim : Key → Bytes → ℤ → Store → Store × Result LeaseError Lease
claim key owner (negsuc n) s = (s, err zero_duration)
claim key owner (pos seconds) s = claim_for key owner seconds s

-- `current.unwrap_or(i64::MAX)`
abbrev pub current_fence : Option Row → ℕ
current_fence none = i64_max
current_fence (some row) = row.fence_token

-- `require_fence`
unfoldable pub require_fence : Lease → Store → Result {0, 0} LeaseError Unit
require_fence lease s =
    if current_fence (s.rows lease.key) == lease.fence_token
    then ok tt
    else err (fence_lost lease.key lease.fence_token (current_fence (s.rows lease.key)))

abbrev pub release_row : Lease → Option Row → Store → Store × Result {0, 0} LeaseError Unit
release_row lease none s = (s, ok tt)
release_row lease (some row) s =
    if row.fence_token == lease.fence_token
    then (if ltb row.fence_token i64_max
        then (
          set lease.key (record row { fence_token = row.fence_token + 1; lease_until = s.now }) s,
          ok tt,
        )
        else (s, err unavailable))
    else (s, ok tt)

-- `release`
unfoldable pub release : Lease → Store → Store × Result {0, 0} LeaseError Unit
release lease s = release_row lease (s.rows lease.key) s
