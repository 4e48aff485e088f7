-- ===== src/Workflow/Lease/Exclusive.antt =====
-- crates/pool-workflow/src/lease.rs: what others can do while a lease is live.
use tig_mining_pool_public.Common.{
  ℕ, ◌+◌, ◌-◌, ◌<◌, ◌≤◌, ◌≡◌, ◌≢◌, ◌⊎◌, ◌==◌, leb, inl, inr, refl, sym, ap, ◌∙◌, subst, Bool-cases,
  some, false, not, ◌||◌, if◌then◌else◌, ok, err, ok_inj, arith,
}
use tig_mining_pool_public.Common.Bytes.{Bytes, same, cmp-eq_iff}
use tig_mining_pool_public.Common.Int.{ℤ, pos, negsuc}
use tig_mining_pool_public.Workflow.Lease.{
  Key, Lease, LeaseError, Row, Store, unavailable, is_key, is_empty, set, still_held, claim_row,
  claim, release,
}
use tig_mining_pool_public.Workflow.Lease.Fences.{
  fence_of, fence_of_row, set-row, eq_of_is_key, claim-cases, release-cases,
}

-- A call by a process that is not the lease's owner: it claims in another name, or it releases a
-- lease that it was granted itself, on other work or with another fence.
pub data Other (lease : Lease) : Store → Store → Type 0 where
  claims :
      (key : Key) (owner : Bytes) (d : ℤ) (s : Store)
      → owner ≢ lease.lease_owner
      → Other lease s (claim key owner d s).0
  releases :
      (own : Lease) (s : Store)
      → (own.key ≢ lease.key) ⊎ (own.fence_token ≢ lease.fence_token)
      → Other lease s (release own s).0
  waits : (seconds : ℕ) (s : Store) → Other lease s (record s { now = s.now + seconds })

pub data Others (lease : Lease) : Store → Store → Type 0 where
  stays : (s : Store) → Others lease s s
  goes : (s t u : Store) → Other lease s t → Others lease t u → Others lease s u

-- The row that the grant wrote.
abbrev Holds : Lease → ℕ → Store → Type 0
Holds lease until s =
    s.rows lease.key
    ≡ some (record {
      fence_token = lease.fence_token;
      lease_owner = lease.lease_owner;
      lease_until = until;
    })

-- What a claim is told of a lease that is live.
abbrev pub refusal : Key → Bytes → ℕ → ℕ → Store → LeaseError
refusal key owner until d s =
    if s.in_range s.now d then still_held key owner (until - s.now) else unavailable

set-other : (key k : Key) (row : Row) (s : Store) → k ≢ key → (set key row s).rows k ≡ s.rows k
set-other key k row s n = elim (Bool-cases (is_key k key)) [
  | inl q ↦ absurd (n (eq_of_is_key k key q))
  | inr q ↦ rw q refl
]

not_same : (a b : Bytes) → a ≢ b → same b a ≡ false
not_same a b n = ground (arith, cmp-eq_iff b a)

module _ (lease : Lease) (until : ℕ) where
  module _ (owner : Bytes) (other : owner ≢ lease.lease_owner) where
    claim_row-live :
        (d : ℕ) (s : Store)
        → Holds lease until s
        → s.now < until
        → claim_row lease.key owner d (s.rows lease.key) s
          ≡ (s, err (still_held lease.key lease.lease_owner (until - s.now)))
    claim_row-live d s h l =
        let e : leb until s.now ≡ false = ground arith in
        rw (h, e, not_same owner lease.lease_owner other) refl

    claim-still_held :
        (d : ℕ) (s : Store)
        → 0 < d
        → is_empty owner ≡ false
        → Holds lease until s
        → s.now < until
        → claim lease.key owner (pos d) s ≡ (s, err (refusal lease.key lease.lease_owner until d s))
    unfolding claim
    claim-still_held d s p n h l =
        let z : (d == 0) ≡ false = ground arith in
        elim (Bool-cases (s.in_range s.now d)) [
          | inl r ↦ rw (z, n, r) (claim_row-live d s h l)
          | inr r ↦ rw (z, n, r) refl
        ]

    claim-unchanged :
        (d : ℤ) (s : Store)
        → Holds lease until s
        → s.now < until
        → (claim lease.key owner d s).0 ≡ s
    unfolding claim
    claim-unchanged (negsuc d) s h l = refl
    claim-unchanged (pos d) s h l = elim (Bool-cases (d == 0)) [
      | inl z ↦ rw z refl
      | inr z ↦ elim (Bool-cases (is_empty owner || not (s.in_range s.now d))) [
        | inl n ↦ rw (z, n) refl
        | inr n ↦ rw (z, n) (ap (λ r. r.0) (claim_row-live d s h l))
      ]
    ]

  Other-Holds :
      (s t : Store) → Other lease s t → Holds lease until s → s.now < until → Holds lease until t
  Other-Holds s t (claims key owner d _ n) h l = elim (Bool-cases (is_key lease.key key)) [
    | inl q ↦
        subst (λ k. Holds lease until (claim k owner d s).0) (eq_of_is_key lease.key key q)
          (subst (Holds lease until) (sym (claim-unchanged owner n d s h l)) h)
    | inr q ↦ elim (claim-cases key owner d s) [
      | inl (_, _, g) ↦ subst (λ r. Holds lease until r.0) (sym g) (rw q h)
      | inr (_, g) ↦ subst (λ r. Holds lease until r.0) (sym g) h
    ]
  ]
  Other-Holds s t (releases own _ n) h l = elim (release-cases own s) [
    | inr (g, _) ↦ subst (Holds lease until) (sym g) h
    | inl (row, q, same, g) ↦ elim (Bool-cases (is_key lease.key own.key)) [
      | inr b ↦ subst (Holds lease until) (sym g) (rw b h)
      | inl b ↦
          let k = eq_of_is_key lease.key own.key b in
          let f : lease.fence_token ≡ row.fence_token = ap fence_of_row (sym h ∙ ap s.rows k ∙ q) in
          absurd (elim n [ inl m ↦ m (sym k) | inr m ↦ m (sym same ∙ sym f) ])
    ]
  ]
  Other-Holds s t (waits d _) h l = h

  Other-now : (s t : Store) → Other lease s t → s.now ≤ t.now
  Other-now s t (claims key owner d _ n) = elim (claim-cases key owner d s) [
    | inl (_, _, g) ↦ rw (ap (λ r. r.0) g) (omega arith)
    | inr (_, g) ↦ rw (ap (λ r. r.0) g) (omega arith)
  ]
  Other-now s t (releases own _ n) = elim (release-cases own s) [
    | inl (_, _, _, g) ↦ rw g (omega arith)
    | inr (g, _) ↦ rw g (omega arith)
  ]
  Other-now s t (waits d _) = omega arith

  Others-now : (s t : Store) → Others lease s t → s.now ≤ t.now
  Others-now s t (stays _) = omega arith
  Others-now s t (goes _ m _ o rest) = omega (arith, Other-now s m o, Others-now m t rest)

  Others-Holds :
      (s t : Store) → Others lease s t → Holds lease until s → t.now < until → Holds lease until t
  Others-Holds s t (stays _) h l = h
  Others-Holds s t (goes _ m _ o rest) h l =
      let a = Other-now s m o in
      let b = Others-now m t rest in Others-Holds m t rest (Other-Holds s m o h (omega arith)) l

claim-Holds :
    (key : Key) (owner : Bytes) (seconds : ℕ) (lease : Lease) (s : Store)
    → (claim key owner (pos seconds) s).1 ≡ ok lease
    → (lease.key ≡ key)
      × (lease.lease_owner ≡ owner)
      × Holds lease (s.now + seconds) (claim key owner (pos seconds) s).0
claim-Holds key owner seconds lease s e = elim (claim-cases key owner (pos seconds) s) [
  | inl (n, d, g) ↦
      let q : granted_lease ≡ lease = ok_inj (sym (ap (λ r. r.1) g) ∙ e) in
      let m : seconds ≡ n = pos_inj d in
      subst
        (λ l.
          (l.key ≡ key)
          × (l.lease_owner ≡ owner)
          × Holds l (s.now + seconds) (claim key owner (pos seconds) s).0)
        q
        (
          refl,
          refl,
          ap (λ r. r.0.rows key) g
              ∙ set-row key _ s
              ∙ ap (λ k. some (row_until (s.now + k))) (sym m),
        )
  | inr (_, g) ↦ let q = sym (ap (λ r. r.1) g) ∙ e in cc
]
  where
    granted_lease : Lease
    granted_lease = record { key = key; fence_token = fence_of key s + 1; lease_owner = owner }

    row_until : ℕ → Row
    row_until until = record {
      fence_token = fence_of key s + 1;
      lease_owner = owner;
      lease_until = until;
    }

    pos_inj : {a b : ℕ} → pos a ≡ pos b → a ≡ b
    pos_inj q = cc

-- While the clock has not reached the end of a lease that was granted, and whatever other owners
-- claim and release in the meantime, a claim by another owner, who has a name and asks for a
-- positive duration, changes nothing; it is told who holds the lease and for how many seconds more,
-- or is unavailable where its duration is beyond the times that the database has.
pub claim-Excludes :
    (key : Key) (owner intruder : Bytes) (d seconds : ℕ) (lease : Lease) (s t : Store)
    → (claim key owner (pos seconds) s).1 ≡ ok lease
    → Others lease (claim key owner (pos seconds) s).0 t
    → t.now < s.now + seconds
    → intruder ≢ owner
    → 0 < d
    → is_empty intruder ≡ false
    → claim key intruder (pos d) t ≡ (t, err (refusal key owner (s.now + seconds) d t))
claim-Excludes key owner intruder d seconds lease s t e rest l n p x =
    let (k, o, h) = claim-Holds key owner seconds lease s e in
    let held = Others-Holds lease (s.now + seconds) _ t rest h l in
    subst (λ j. claim j intruder (pos d) t ≡ (t, err (refusal j owner (s.now + seconds) d t))) k
      (subst
        (λ w.
          claim lease.key intruder (pos d) t ≡ (t, err (refusal lease.key w (s.now + seconds) d t)))
        o (claim-still_held lease (s.now + seconds) intruder (λ q. n (q ∙ o)) d t p x held l))
