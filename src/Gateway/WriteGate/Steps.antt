-- ===== src/Gateway/WriteGate/Steps.antt =====
-- crates/tig-gateway/src/write_gate.rs: the gate among its callers, who hold the permits.
use tig_mining_pool_public.Common.{◌+◌, ◌<◌, ◌≡◌, List, [], ◌∷◌, ◌++◌, ok, err, length}
use tig_mining_pool_public.Common.Words.{u64_size}
use tig_mining_pool_public.Gateway.Readiness.{WriteReady}
use tig_mining_pool_public.Gateway.WriteGate.{
  Revocation, Inner, open_gate, begin_write, revoke, restore, drop,
}

-- The gate, and the permits that are held.
pub record Process : Type 0 where
  pub inner : Inner
  pub permits : List WriteReady

pub data Event : Type 0 where
  admitted blocked lost regained finished : Event

-- One call. A permit is an object in memory, so fewer are held than a `usize` can count.
pub data Step : Process → Event → Process → Type 0 where
  begins :
      (p : Process) (next : Inner) (permit : WriteReady)
      → length p.permits + 1 < u64_size
      → begin_write p.inner ≡ (next, ok permit)
      → Step p admitted (record { inner = next; permits = permit ∷ p.permits })
  is_blocked :
      (p : Process) (next : Inner) (cause : Revocation)
      → begin_write p.inner ≡ (next, err cause)
      → Step p blocked (record { inner = next; permits = p.permits })
  loses :
      (p : Process) (cause : Revocation)
      → Step p lost (record { inner = (revoke cause p.inner).0; permits = p.permits })
  regains :
      (p : Process) (w : WriteReady)
      → Step p regained (record { inner = (restore w p.inner).0; permits = p.permits })
  finishes :
      (inner : Inner) (before after : List WriteReady) (permit : WriteReady)
      → Step
          (record { inner = inner; permits = before ++ (permit ∷ after) })
          finished
          (record { inner = drop inner; permits = before ++ after })

pub data Steps : Process → List Event → Process → Type 0 where
  stays : (p : Process) → Steps p [] p
  goes :
      (p q r : Process) (e : Event) (es : List Event)
      → Step p e q
      → Steps q es r
      → Steps p (e ∷ es) r

abbrev pub opened : WriteReady → Process
unfolding open_gate
opened w = record { inner = open_gate w; permits = [] }
