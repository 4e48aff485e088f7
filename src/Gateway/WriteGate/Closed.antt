-- ===== src/Gateway/WriteGate/Closed.antt =====
-- crates/tig-gateway/src/write_gate.rs: what a revoked gate lets happen.
use tig_mining_pool_public.Common.{
  if◌then◌else◌, ◌≡◌, ◌≢◌, Bool, true, false, inl, inr, List, refl, ok, err, arith, All,
}
use tig_mining_pool_public.Gateway.Readiness.{WriteReady}
use tig_mining_pool_public.Gateway.WriteGate.{
  Revocation, ready, revoked, Inner, begin_write, revoke, restore, drop, is_ready,
}
use tig_mining_pool_public.Gateway.WriteGate.Counted.{State-cases}
use tig_mining_pool_public.Gateway.WriteGate.Steps.{
  Process, Event, admitted, blocked, lost, regained, finished, Step, begins, is_blocked, loses,
  regains, finishes, Steps, stays, goes,
}

abbrev pub is_regained : Event → Bool
is_regained regained = true
is_regained admitted = false
is_regained blocked = false
is_regained lost = false
is_regained finished = false

abbrev pub is_admitted : Event → Bool
is_admitted admitted = true
is_admitted blocked = false
is_admitted lost = false
is_admitted regained = false
is_admitted finished = false

no_begin :
    (i next : Inner) (permit : WriteReady) (c : Revocation)
    → i.state ≡ revoked c
    → begin_write i ≢ (next, ok permit)
unfolding begin_write
no_begin i next permit c s e = ground arith

blocked_keeps :
    (i next : Inner) (cause c : Revocation)
    → i.state ≡ revoked c
    → begin_write i ≡ (next, err cause)
    → next.state ≡ revoked c
unfolding begin_write
blocked_keeps i next cause c s e = ground arith

Step-revoked :
    (p q : Process) (e : Event) (c : Revocation)
    → Step p e q
    → is_regained e ≡ false
    → p.inner.state ≡ revoked c
    → (q.inner.state ≡ revoked c) × (is_admitted e ≡ false)
unfolding revoke drop
Step-revoked _ _ _ c (begins p next permit h b) k s = absurd (no_begin p.inner next permit c s b)
Step-revoked _ _ _ c (is_blocked p next cause b) k s =
    (blocked_keeps p.inner next cause c s b, refl)
Step-revoked _ _ _ c (loses p cause) k s = (rw s refl, refl)
Step-revoked _ _ _ c (regains p w) k s = absurd (ground arith)
Step-revoked _ _ _ c (finishes inner before after permit) k s = (s, refl)

-- From a revoked gate on, until it is restored, no write is admitted, whatever is called, and the gate
-- stays revoked for the cause that it was first revoked for.
pub Steps-revoked :
    (p q : Process) (es : List Event) (c : Revocation)
    → Steps p es q
    → All (λ e. is_regained e ≡ false) es
    → p.inner.state ≡ revoked c
    → (q.inner.state ≡ revoked c) × All (λ e. is_admitted e ≡ false) es
Steps-revoked _ _ _ c (stays p) k s = (s, tt)
Steps-revoked _ _ _ c (goes p q r e es t ts) k s =
    let (s', a) = Step-revoked p q e c t k.0 s in
    let (s'', rest) = Steps-revoked q r es c ts k.1 s' in (s'', (a, rest))

-- Whatever the gate's state, a revocation leaves it revoked and the writes in flight as they are; it
-- says it was the one exactly where writes were admitted before it, then its cause is kept, and else the
-- state is as it was; a restoration after it admits writes again, with those in flight still counted.
pub revoke-restore :
    (i : Inner) (cause : Revocation) (w : WriteReady)
    → (is_ready (revoke cause i).0 ≡ false)
      × ((revoke cause i).0.in_flight ≡ i.in_flight)
      × ((revoke cause i).1 ≡ is_ready i)
      × ((revoke cause i).0.state ≡ (if is_ready i then revoked cause else i.state))
      × ((restore w (revoke cause i).0).0 ≡ record { state = ready w; in_flight = i.in_flight })
unfolding revoke restore is_ready
revoke-restore i cause w = elim (State-cases i.state) [
  | inl (x, q) ↦ (rw q refl, rw q refl, rw q refl, rw q refl, rw q refl)
  | inr (x, q) ↦ (rw q refl, rw q refl, rw q refl, rw q refl, rw q refl)
]
