-- ===== src/Gateway/WriteGate/Counted.antt =====
-- crates/tig-gateway/src/write_gate.rs: what the counter counts.
use tig_mining_pool_public.Common.{
  ℕ, ◌+◌, ◌<◌, ◌≡◌, List, [], ◌∷◌, ◌++◌, refl, ok, length, arith, ◌∙◌, ◌⊎◌, inl, inr, err,
}
use tig_mining_pool_public.Common.Words.{u64_size}
use tig_mining_pool_public.Gateway.Readiness.{WriteReady}
use tig_mining_pool_public.Gateway.WriteGate.{
  Revocation, State, ready, revoked, Inner, open_gate, begin_write, revoke, restore, drop,
}
use tig_mining_pool_public.Gateway.WriteGate.Steps.{
  Process, Event, Step, begins, is_blocked, loses, regains, finishes, Steps, stays, goes, opened,
}

length-append : {A : Type 0} (xs ys : List A) → length (xs ++ ys) ≡ length xs + length ys
length-append [] ys = omega arith
length-append (x ∷ xs) ys = omega (arith, length-append xs ys)

-- A gate counts what is held.
abbrev IsCounted : Process → Type 0
IsCounted p = p.inner.in_flight ≡ length p.permits

pub State-cases :
    (s : State) → ((w : WriteReady) × (s ≡ ready w)) ⊎ ((c : Revocation) × (s ≡ revoked c))
State-cases (ready w) = inl (w, refl)
State-cases (revoked c) = inr (c, refl)

begin_counts :
    (i next : Inner) (permit : WriteReady) (n : ℕ)
    → n + 1 < u64_size
    → i.in_flight ≡ n
    → begin_write i ≡ (next, ok permit)
    → next.in_flight ≡ n + 1
unfolding begin_write
begin_counts i next permit n h c e = elim (State-cases i.state) [
  | inl (w, q) ↦ ground arith
  | inr (r, q) ↦ ground arith
]

blocked_counts :
    (i next : Inner) (cause : Revocation)
    → begin_write i ≡ (next, err cause)
    → next.in_flight ≡ i.in_flight
unfolding begin_write
blocked_counts i next cause e = elim (State-cases i.state) [
  | inl (w, q) ↦ ground arith
  | inr (r, q) ↦ ground arith
]

revoke_keeps : (c : Revocation) (i : Inner) → (revoke c i).0.in_flight ≡ i.in_flight
unfolding revoke
revoke_keeps c i = elim (State-cases i.state) [ inl (w, q) ↦ rw q refl | inr (r, q) ↦ rw q refl ]

restore_keeps : (w : WriteReady) (i : Inner) → (restore w i).0.in_flight ≡ i.in_flight
unfolding restore
restore_keeps w i = elim (State-cases i.state) [ inl (w, q) ↦ rw q refl | inr (r, q) ↦ rw q refl ]

Step-IsCounted : (p q : Process) (e : Event) → Step p e q → IsCounted p → IsCounted q
unfolding drop
Step-IsCounted _ _ _ (begins p next permit h b) c =
    omega (arith, begin_counts p.inner next permit (length p.permits) h c b)
Step-IsCounted _ _ _ (is_blocked p next cause b) c = blocked_counts p.inner next cause b ∙ c
Step-IsCounted _ _ _ (loses p cause) c = revoke_keeps cause p.inner ∙ c
Step-IsCounted _ _ _ (regains p w) c = restore_keeps w p.inner ∙ c
Step-IsCounted _ _ _ (finishes inner before after permit) c =
    omega (arith, length-append before (permit ∷ after), length-append before after)

Steps-IsCounted : (p q : Process) (es : List Event) → Steps p es q → IsCounted p → IsCounted q
Steps-IsCounted _ _ _ (stays p) c = c
Steps-IsCounted _ _ _ (goes p q r e es s ss) c =
    Steps-IsCounted q r es ss (Step-IsCounted p q e s c)

-- After any calls on a gate that was opened, the writes it counts in flight are the permits that are
-- held, whether or not it was revoked meanwhile.
pub opened-counts :
    (w : WriteReady) (es : List Event) (q : Process)
    → Steps (opened w) es q
    → q.inner.in_flight ≡ length q.permits
unfolding open_gate
opened-counts w es q s = Steps-IsCounted (opened w) q es s refl
