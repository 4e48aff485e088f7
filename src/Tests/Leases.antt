-- ===== src/Tests/Leases.antt =====
-- Two owners and the lease on one precommit.
use tig_mining_pool_public.Common.{
  ◌<◌, ◌≡◌, ◌≢◌, true, none, refl, ap, ℕ, [], ◌∷◌, ok, err, arith, leb, ◌+◌,
}
use tig_mining_pool_public.Common.Bytes.{Bytes, cmp, codes}
use tig_mining_pool_public.Common.Int.{pos}
use tig_mining_pool_public.Gateway.Network.{testnet}
use tig_mining_pool_public.Workflow.Lease.{
  Key, Lease, Store, precommit_transmit, fence_lost, still_held, claim, require_fence,
}
use tig_mining_pool_public.Workflow.Lease.Steps
use tig_mining_pool_public.Workflow.Attempt.{Ledger}
use tig_mining_pool_public.Workflow.Lease.Superseded.{is_reclaimed, ended-IsLost}
use tig_mining_pool_public.Workflow.Lease.Reclaimed.{later, claim-Reclaims}
use tig_mining_pool_public.Workflow.Lease.Exclusive
use tig_mining_pool_public.Workflow.Lease.Exclusive.{claim-Excludes}

abbrev key : Key
key = record { network = testnet; workflow_id = codes "w1"; kind = precommit_transmit }

abbrev start : Store
start = record {
  now = 100;
  in_range = λ now seconds. leb (now + seconds) 9223372036854;
  has_workflow = λ _ _. true;
  rows = λ _. none;
}

abbrev first : Lease
first = record { key = key; fence_token = 1; lease_owner = codes "a" }

abbrev second : Lease
second = record { key = key; fence_token = 2; lease_owner = codes "b" }

abbrev held : Store
held = (claim key (codes "a") (pos 30) start).0

abbrev taken : Store
taken = (claim key (codes "b") (pos 30) (later 30 held)).0

first_granted : (claim key (codes "a") (pos 30) start).1 ≡ ok first
unfolding claim
first_granted = refl

second_granted : (claim key (codes "b") (pos 30) (later 30 held)).1 ≡ ok second
unfolding claim cmp
second_granted = refl

ended-IsLost_example : (1 < 2) × (require_fence first (later 5 taken) ≡ err (fence_lost key 1 2))
unfolding claim cmp
ended-IsLost_example =
    ended-IsLost key (codes "a") (pos 30) first start (later 30 held) taken (later 5 taken)
      first_granted (Steps.goes _ _ _ (Steps.waits 30 held) (Steps.stays _))
      (is_reclaimed first second (codes "b") (pos 30) (later 30 held) second_granted)
      (Steps.goes _ _ _ (Steps.waits 5 taken) (Steps.stays _))

claim-Reclaims_example :
    (lease : Lease) × ((claim key (codes "b") (pos 30) (later 30 held)).1 ≡ ok lease)
    × (lease.fence_token ≡ 2)
    × (require_fence lease (claim key (codes "b") (pos 30) (later 30 held)).0 ≡ ok tt)
unfolding claim cmp
claim-Reclaims_example =
    claim-Reclaims key (codes "b") 30 30 held (omega arith) refl refl (omega arith) refl
      (omega arith)

abbrev first_code : Bytes → ℕ
first_code [] = 0
first_code (c ∷ rest) = c

b_is_not_a : codes "b" ≢ codes "a"
b_is_not_a e = let q = ap first_code e in absurd (omega arith)

on_time : (later 12 held).now < 130
unfolding claim
on_time = omega arith

claim-Excludes_example :
    claim key (codes "b") (pos 10) (later 12 held)
    ≡ (later 12 held, err (still_held key (codes "a") 18))
unfolding claim
claim-Excludes_example =
    claim-Excludes key (codes "a") (codes "b") 10 30 first start (later 12 held) first_granted
      (Exclusive.goes _ _ _ (Exclusive.waits 12 held) (Exclusive.stays _)) on_time b_is_not_a
      (omega arith) refl

abbrev ledger : Ledger
ledger = record { leases = later 5 taken; intents = []; attempts = [] }
