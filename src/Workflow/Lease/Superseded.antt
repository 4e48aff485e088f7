-- ===== src/Workflow/Lease/Superseded.antt =====
-- crates/pool-workflow/src/lease.rs: a lease that someone took over, or that was given back.
use tig_mining_pool_public.Common.{
  false, ◌+◌, ◌<◌, ◌≤◌, ◌≡◌, ◌==◌, inl, inr, refl, sym, ap, ◌∙◌, subst, Option, none, some, ok, err,
  ok_inj, arith,
}
use tig_mining_pool_public.Common.Bytes.{Bytes}
use tig_mining_pool_public.Common.Int.{ℤ}
use tig_mining_pool_public.Workflow.Lease.{
  Key, Lease, fence_lost, Row, Store, claim, require_fence, release,
}
use tig_mining_pool_public.Workflow.Lease.Steps.{Steps}
use tig_mining_pool_public.Workflow.Lease.Fences.{
  fence_of, fence_of_row, set-row, claim-cases, release-cases, Steps-fence,
}

-- The two ways in which a lease ends before its time: another claim of its key is granted, or it is
-- released.
pub data Ends : Lease → Store → Store → Type 0 where
  is_reclaimed :
      (lease next : Lease) (owner : Bytes) (d : ℤ) (s : Store)
      → (claim lease.key owner d s).1 ≡ ok next
      → Ends lease s (claim lease.key owner d s).0
  is_released :
      (lease : Lease) (s : Store) → (release lease s).1 ≡ ok tt → Ends lease s (release lease s).0

behind :
    (lease : Lease) (s : Store)
    → lease.fence_token < fence_of lease.key s
    → require_fence lease s ≡ err (fence_lost lease.key lease.fence_token (fence_of lease.key s))
unfolding require_fence
behind lease s = by_row (s.rows lease.key) refl
  where
    by_row :
        (o : Option Row)
        → s.rows lease.key ≡ o
        → lease.fence_token < fence_of lease.key s
        → require_fence lease s
          ≡ err (fence_lost lease.key lease.fence_token (fence_of lease.key s))
    by_row none q h = let e : fence_of lease.key s ≡ 0 = rw q refl in absurd (omega arith)
    by_row (some row) q h =
        let e : fence_of lease.key s ≡ row.fence_token = rw q refl in
        let n : (row.fence_token == lease.fence_token) ≡ false = ground arith in rw (q, n) refl

-- What a granted claim leaves.
pub claim-fence :
    (key : Key) (owner : Bytes) (d : ℤ) (s : Store) (lease : Lease)
    → (claim key owner d s).1 ≡ ok lease
    → (lease.key ≡ key)
      × (lease.fence_token ≡ fence_of key s + 1)
      × (fence_of key (claim key owner d s).0 ≡ lease.fence_token)
claim-fence key owner d s lease e = elim (claim-cases key owner d s) [
  | inl (seconds, _, g) ↦
      let q = ok_inj (sym (ap (λ r. r.1) g) ∙ e) in
      (
        ap (λ l. l.key) (sym q),
        ap (λ l. l.fence_token) (sym q),
        ap (λ r. fence_of key r.0) g
            ∙ ap fence_of_row (set-row key _ s)
            ∙ ap (λ l. l.fence_token) q,
      )
  | inr (why, g) ↦ let q = sym (ap (λ r. r.1) g) ∙ e in cc
]

Ends-fence :
    (lease : Lease) (t t' : Store)
    → 0 < lease.fence_token
    → lease.fence_token ≤ fence_of lease.key t
    → Ends lease t t'
    → lease.fence_token < fence_of lease.key t'
Ends-fence lease t t' pos h (is_reclaimed _ next owner d _ e) =
    let (_, more, at) = claim-fence lease.key owner d t next e in omega arith
Ends-fence lease t t' pos h (is_released _ _ e) = elim (release-cases lease t) [
  | inl (row, q, same, g) ↦
      let at : fence_of lease.key (release lease t).0 ≡ row.fence_token + 1 =
        ap (fence_of lease.key) g ∙ ap fence_of_row (set-row lease.key _ t) in
      omega arith
  | inr (g, n) ↦
      let m = n e (omega arith) in
      let same : fence_of lease.key (release lease t).0 ≡ fence_of lease.key t =
        ap (fence_of lease.key) g in
      grind arith
]

-- Once a lease that was granted has been reclaimed or released, `require_fence` refuses it in every
-- store that can be reached from there, and names the higher fence of that store.
pub ended-IsLost :
    (key : Key) (owner : Bytes) (d : ℤ) (lease : Lease) (s t t' u : Store)
    → (claim key owner d s).1 ≡ ok lease
    → Steps (claim key owner d s).0 t
    → Ends lease t t'
    → Steps t' u
    → (lease.fence_token < fence_of key u)
      × (require_fence lease u ≡ err (fence_lost key lease.fence_token (fence_of key u)))
ended-IsLost key owner d lease s t t' u e first ends rest =
    let (k, more, at) = claim-fence key owner d s lease e in
    let held : lease.fence_token ≤ fence_of lease.key t =
      subst (λ j. lease.fence_token ≤ fence_of j t) (sym k)
        (omega (arith, Steps-fence key _ t first)) in
    let lost : lease.fence_token < fence_of lease.key u =
      omega
        (arith, Ends-fence lease t t' (omega arith) held ends, Steps-fence lease.key t' u rest) in
    subst
      (λ j.
        (lease.fence_token < fence_of j u)
        × (require_fence lease u ≡ err (fence_lost j lease.fence_token (fence_of j u))))
      k (lost, behind lease u lost)
