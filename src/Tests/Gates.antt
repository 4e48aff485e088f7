-- ===== src/Tests/Gates.antt =====
-- A gate that admits two writes, is revoked, and refuses a third while one of the two ends.
use tig_mining_pool_public.Common.{◌≡◌, [], ◌∷◌, none, false, All, length, refl, arith}
use tig_mining_pool_public.Common.Bytes.{codes}
use tig_mining_pool_public.Gateway.Network.{testnet}
use tig_mining_pool_public.Gateway.Readiness.{WriteReady}
use tig_mining_pool_public.Gateway.WriteGate.{
  Revocation, authentication, ready, revoked, open_gate, begin_write, revoke, drop,
}
use tig_mining_pool_public.Gateway.WriteGate.Steps.{
  Process, admitted, blocked, lost, finished, Step, begins, is_blocked, loses, finishes, Steps,
  stays, goes, opened,
}
use tig_mining_pool_public.Gateway.WriteGate.Counted.{opened-counts}
use tig_mining_pool_public.Gateway.WriteGate.Closed.{is_admitted, Steps-revoked}

abbrev pass : WriteReady
pass = record { network = testnet; commit = codes "abc"; containers_unresolved = none }

abbrev refused : Revocation
refused = authentication (codes "401")

abbrev one_in_flight : Process
one_in_flight = record { inner = record { state = ready pass; in_flight = 1 }; permits = pass ∷ [] }

abbrev closed : Process
closed = record { inner = record { state = revoked refused; in_flight = 1 }; permits = pass ∷ [] }

abbrev drained : Process
drained = record { inner = record { state = revoked refused; in_flight = 0 }; permits = [] }

admits : Step (opened pass) admitted one_in_flight
unfolding open_gate begin_write
admits = begins (opened pass) (record { state = ready pass; in_flight = 1 }) pass (omega arith) refl

closes : Step one_in_flight lost closed
unfolding revoke
closes = loses one_in_flight refused

blocks : Step closed blocked closed
unfolding begin_write
blocks = is_blocked closed (record { state = revoked refused; in_flight = 1 }) refused refl

drains : Step closed finished drained
unfolding drop
drains = finishes (record { state = revoked refused; in_flight = 1 }) [] [] pass

after_closing : Steps closed (blocked ∷ finished ∷ []) drained
after_closing =
    goes closed closed drained blocked (finished ∷ []) blocks
      (goes closed drained drained finished [] drains (stays drained))

whole_run : Steps (opened pass) (admitted ∷ lost ∷ blocked ∷ finished ∷ []) drained
whole_run =
    goes (opened pass) one_in_flight drained admitted (lost ∷ blocked ∷ finished ∷ []) admits
      (goes one_in_flight closed drained lost (blocked ∷ finished ∷ []) closes after_closing)

opened-counts_example : drained.inner.in_flight ≡ length drained.permits
opened-counts_example =
    opened-counts pass (admitted ∷ lost ∷ blocked ∷ finished ∷ []) drained whole_run

Steps-revoked_example :
    (drained.inner.state ≡ revoked refused)
    × All (λ e. is_admitted e ≡ false) (blocked ∷ finished ∷ [])
Steps-revoked_example =
    Steps-revoked closed drained (blocked ∷ finished ∷ []) refused after_closing (refl, (refl, tt))
      refl
