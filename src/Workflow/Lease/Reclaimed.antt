-- ===== src/Workflow/Lease/Reclaimed.antt =====
-- crates/pool-workflow/src/lease.rs: who gets the work of an owner that has stopped.
use tig_mining_pool_public.Common.{
  ℕ, ◌+◌, ◌-◌, ◌<◌, ◌≤◌, ◌≡◌, ◌==◌, leb, ltb, refl, Option, none, some, true, false, ok, arith,
}
use tig_mining_pool_public.Common.Bytes.{Bytes}
use tig_mining_pool_public.Common.Int.{pos, i64_max}
use tig_mining_pool_public.Workflow.Lease.{
  Key, Lease, Row, Store, is_empty, granted, claim_row, claim, require_fence,
}
use tig_mining_pool_public.Workflow.Lease.Fences.{fence_of, fence_of_row, set-row}

-- How long the row of the key is still live.
abbrev pub remaining_of : Option Row → ℕ → ℕ
remaining_of none now = 0
remaining_of (some row) now = row.lease_until - now

abbrev pub remaining : Key → Store → ℕ
remaining key s = remaining_of (s.rows key) s.now

abbrev pub later : ℕ → Store → Store
later seconds s = record s { now = s.now + seconds }

waited :
    (o : Option Row) (now wait : ℕ) → remaining_of o now ≤ wait → remaining_of o (now + wait) ≡ 0
waited none now wait h = refl
waited (some row) now wait h = omega arith

claim_row-expired :
    (key : Key) (owner : Bytes) (d : ℕ) (o : Option Row) (s : Store)
    → s.has_workflow key.network key.workflow_id ≡ true
    → remaining_of o s.now ≡ 0
    → fence_of_row o < i64_max
    → claim_row key owner d o s ≡ granted key owner (fence_of_row o + 1) (s.now + d) s
claim_row-expired key owner d none s w r f = rw w refl
claim_row-expired key owner d (some row) s w r f =
    let e : leb row.lease_until s.now ≡ true = ground arith in
    let b : ltb row.fence_token i64_max ≡ true = ground arith in rw (e, b) refl

require_fence-granted :
    (key : Key) (owner : Bytes) (f until : ℕ) (s : Store)
    → require_fence
        (record { key = key; fence_token = f; lease_owner = owner })
        (granted key owner f until s).0
      ≡ ok tt
unfolding require_fence
require_fence-granted key owner f until s = rw (set-row key _ s) (ground arith)

-- However the lease on a recorded workflow's work stands, whoever waits for as long as it still
-- lasts, or longer, then obtains it by a claim under a name and of a positive duration that ends at a
-- time that the database has, unless the fence has reached the largest `i64`: with the next fence,
-- which `require_fence` then accepts.
pub claim-Reclaims :
    (key : Key) (owner : Bytes) (d wait : ℕ) (s : Store)
    → 0 < d
    → is_empty owner ≡ false
    → s.has_workflow key.network key.workflow_id ≡ true
    → fence_of key s < i64_max
    → s.in_range (s.now + wait) d ≡ true
    → remaining key s ≤ wait
    → (lease : Lease) × ((claim key owner (pos d) (later wait s)).1 ≡ ok lease)
      × (lease.fence_token ≡ fence_of key s + 1)
      × (require_fence lease (claim key owner (pos d) (later wait s)).0 ≡ ok tt)
unfolding claim
claim-Reclaims key owner d wait s h n w f g r =
    let z : (d == 0) ≡ false = ground arith in
    let x : remaining_of (s.rows key) (s.now + wait) ≡ 0 = waited (s.rows key) s.now wait r in
    rw (z, n, g, claim_row-expired key owner d (s.rows key) (later wait s) w x f)
      (_, refl, refl, require_fence-granted key owner _ _ (later wait s))
