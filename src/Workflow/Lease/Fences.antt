-- ===== src/Workflow/Lease/Fences.antt =====
-- crates/pool-workflow/src/lease.rs: how a call changes the row of a key.
use tig_mining_pool_public.Common.{
  ℕ, ◌≢◌, ◌+◌, ◌≤◌, ◌<◌, ◌≡◌, ◌⊎◌, ◌↔◌, inl, inr, refl, ap, true, ◌||◌, not, ltb, leb, ◌==◌, Option,
  none, some, Result, ok, err, arith, Bool-cases,
}
use tig_mining_pool_public.Common.Bytes.{Bytes, same, cmp-eq_iff}
use tig_mining_pool_public.Common.Int.{ℤ, pos, negsuc, i64_max}
use tig_mining_pool_public.Gateway.Network.{Network, is_same}
use tig_mining_pool_public.Workflow.Lease.{
  LeaseKind, Key, Lease, LeaseError, Row, Store, is_kind, is_key, set, is_empty, granted, claim_row,
  claim, release, unavailable, zero_duration, still_held,
}
use tig_mining_pool_public.Workflow.Lease.Steps.{Step, claims, releases, waits, Steps, stays, goes}

is_kind_iff : (a b : LeaseKind) → (is_kind a b ≡ true) ↔ (a ≡ b)
is_kind_iff a b = ground arith

is_same_iff : (a b : Network) → (is_same a b ≡ true) ↔ (a ≡ b)
is_same_iff a b = ground arith

pub is_key_refl : (k : Key) → is_key k k ≡ true
is_key_refl k = ground (
  arith,
  is_same_iff k.network k.network,
  cmp-eq_iff k.workflow_id k.workflow_id,
  is_kind_iff k.kind k.kind,
)

pub eq_of_is_key : (a b : Key) → is_key a b ≡ true → a ≡ b
eq_of_is_key a b h = ground (
  arith,
  is_same_iff a.network b.network,
  cmp-eq_iff a.workflow_id b.workflow_id,
  is_kind_iff a.kind b.kind,
)

-- The fence that the row of the key has reached, 0 where there is no row.
abbrev pub fence_of_row : Option Row → ℕ
fence_of_row none = 0
fence_of_row (some row) = row.fence_token

abbrev pub fence_of : Key → Store → ℕ
fence_of key s = fence_of_row (s.rows key)

set-fence :
    (key k : Key) (row : Row) (s : Store)
    → fence_of key s ≤ row.fence_token
    → fence_of k s ≤ fence_of k (set key row s)
set-fence key k row s h = elim (Bool-cases (is_key k key)) [
  | inl q ↦ rw (q, eq_of_is_key k key q) h
  | inr q ↦ rw q (omega arith)
]

pub set-row : (key : Key) (row : Row) (s : Store) → (set key row s).rows key ≡ some row
set-row key row s = rw (is_key_refl key) refl

-- A claim either raises the fence by one and leaves its lease, or changes nothing.
abbrev pub Grants : Key → Bytes → ℕ → Store → Store × Result LeaseError Lease → Type 0
Grants key owner seconds s r = r ≡ granted key owner (fence_of key s + 1) (s.now + seconds) s

abbrev pub Refuses : Store → Store × Result LeaseError Lease → Type 0
Refuses s r = (e : LeaseError) × (r ≡ (s, err e))

claim_row-cases :
    (key : Key) (owner : Bytes) (seconds : ℕ) (o : Option Row) (s : Store)
    → s.rows key ≡ o
    → Grants key owner seconds s (claim_row key owner seconds o s)
      ⊎ Refuses s (claim_row key owner seconds o s)
claim_row-cases key owner seconds none s q =
    elim (Bool-cases (s.has_workflow key.network key.workflow_id)) [
      | inl w ↦ inl (rw (w, q) refl)
      | inr w ↦ inr (rw w (unavailable, refl))
    ]
claim_row-cases key owner seconds (some row) s q =
    elim (Bool-cases (leb row.lease_until s.now || same row.lease_owner owner)) [
      | inl w ↦ elim (Bool-cases (ltb row.fence_token i64_max)) [
        | inl b ↦ inl (rw (w, b, q) refl)
        | inr b ↦ inr (rw (w, b) (unavailable, refl))
      ]
      | inr w ↦ inr (rw w (still_held _ _ _, refl))
    ]

pub claim-cases :
    (key : Key) (owner : Bytes) (d : ℤ) (s : Store)
    → ((seconds : ℕ) × (d ≡ pos seconds) × Grants key owner seconds s (claim key owner d s))
      ⊎ Refuses s (claim key owner d s)
unfolding claim
claim-cases key owner (negsuc n) s = inr (zero_duration, refl)
claim-cases key owner (pos d) s = elim (Bool-cases (d == 0)) [
  | inl z ↦ inr (rw z (zero_duration, refl))
  | inr z ↦ elim (Bool-cases (is_empty owner || not (s.in_range s.now d))) [
    | inl w ↦ inr (rw (z, w) (unavailable, refl))
    | inr w ↦
        rw (z, w)
          (elim (claim_row-cases key owner d (s.rows key) s refl) [
            | inl g ↦ inl (d, refl, g)
            | inr g ↦ inr g
          ])
  ]
]

-- A release that its fence admits raises the fence and ends the lease; any other changes nothing.
abbrev Releases : Lease → Store → Type 0
Releases lease s =
    (row : Row) × (s.rows lease.key ≡ some row)
    × (row.fence_token ≡ lease.fence_token)
    × ((release lease s).0
        ≡ set lease.key (record row { fence_token = row.fence_token + 1; lease_until = s.now }) s)

abbrev Ignores : Lease → Store → Type 0
Ignores lease s =
    ((release lease s).0 ≡ s)
    × ((release lease s).1 ≡ ok tt
        → 0 < fence_of lease.key s
        → fence_of lease.key s ≢ lease.fence_token)

pub release-cases : (lease : Lease) (s : Store) → Releases lease s ⊎ Ignores lease s
unfolding release
release-cases lease s = by_row (s.rows lease.key) refl
  where
    by_row : (o : Option Row) → s.rows lease.key ≡ o → Releases lease s ⊎ Ignores lease s
    by_row none q = inr (rw q refl, λ _ h. let k = rw q at h in absurd (omega arith))
    by_row (some row) q = elim (Bool-cases (row.fence_token == lease.fence_token)) [
      | inl e ↦ elim (Bool-cases (ltb row.fence_token i64_max)) [
        | inl b ↦ inl (row, q, ground arith, rw (q, e, b) refl)
        | inr b ↦ inr (rw (q, e, b) refl, λ h. let k = rw (q, e, b) at h in cc)
      ]
      | inr e ↦ inr (rw (q, e) refl, λ _ _ h. let k = rw q at h in absurd (ground arith))
    ]

pub Step-fence : (k : Key) (s t : Store) → Step s t → fence_of k s ≤ fence_of k t
Step-fence k s t (claims key owner d _) = elim (claim-cases key owner d s) [
  | inl (seconds, _, g) ↦ rw (ap (λ r. r.0) g) (set-fence key k _ s (omega arith))
  | inr (e, g) ↦ rw (ap (λ r. r.0) g) (omega arith)
]
Step-fence k s t (releases lease _) = elim (release-cases lease s) [
  | inl (row, q, _, g) ↦ rw g (set-fence lease.key k _ s (rw q (omega arith)))
  | inr (g, _) ↦ rw g (omega arith)
]
Step-fence k s t (waits d _) = omega arith

pub Steps-fence : (k : Key) (s t : Store) → Steps s t → fence_of k s ≤ fence_of k t
Steps-fence k s t (stays _) = omega arith
Steps-fence k s t (goes _ m _ step rest) =
    omega (arith, Step-fence k s m step, Steps-fence k m t rest)
