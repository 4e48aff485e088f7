-- ===== src/Workflow/Lifecycle/Sound.antt =====
-- crates/pool-workflow/src/workflow.rs: what holds of every row, whatever is called.
use tig_mining_pool_public.Common.{◌≡◌, Bool, true, false, ◌||◌, none, All, arith}
use tig_mining_pool_public.Common.Bytes.{Bytes}
use tig_mining_pool_public.Common.Int.{ℤ}
use tig_mining_pool_public.Gateway.Network.{Network}
use tig_mining_pool_public.Workflow.Lifecycle.{
  Owner, WorkflowState, decided, precommit_submitted, verified, failed, expired, is_terminal,
  is_state, Workflow, Fields, Db,
}
use tig_mining_pool_public.Workflow.Lifecycle.Table.{is_some, updated}
use tig_mining_pool_public.Workflow.Lifecycle.Calls.{created}
use tig_mining_pool_public.Workflow.Lifecycle.Moves.{
  Move, submitting, obtaining, computing, stopping, proving, verifying, condemning, failing,
  expiring,
}
use tig_mining_pool_public.Workflow.Lifecycle.Kept.{Steps-All}
use tig_mining_pool_public.Workflow.Lifecycle.Steps.{Steps}

-- The work no longer counts against the limit on unverified work.
abbrev pub is_closed : WorkflowState → Bool
is_closed s = is_terminal s || is_state s verified

-- No precommit of the work is confirmed yet.
abbrev pub is_unconfirmed : WorkflowState → Bool
is_unconfirmed s = is_state s decided || is_state s precommit_submitted

module _ {V : Type 0} where
  -- The interval of unverified work is closed exactly in a terminal state and in VERIFIED, a reason
  -- is given exactly in a terminal state, and what a confirmed precommit brings comes together: the
  -- benchmark, its track, its settings, its block and its start. It has come in every state after
  -- the first two but EXPIRED and FAILED, and in neither of the first two.
  pub record IsSound (w : Workflow V) : Type 0 where
    pub closed : is_some w.unverified_to_block ≡ is_closed w.state
    pub reasoned : is_some w.terminal_reason ≡ is_terminal w.state
    pub track : is_some w.confirmed_track_id ≡ is_some w.benchmark_id
    pub settings : is_some w.confirmed_settings ≡ is_some w.benchmark_id
    pub block : is_some w.precommit_confirmed_block ≡ is_some w.benchmark_id
    pub start : is_some w.block_started ≡ is_some w.benchmark_id
    pub before : is_unconfirmed w.state ≡ true → w.benchmark_id ≡ none
    pub after :
        is_unconfirmed w.state ≡ false
        → is_state w.state expired ≡ false
        → is_state w.state failed ≡ false
        → is_some w.benchmark_id ≡ true

  created-IsSound :
      (network : Network) (id : Bytes) (owner : Owner) (owner_id : Bytes) (from : ℤ)
      → IsSound (created {V = V} network id owner owner_id from)
  created-IsSound network id owner owner_id from = ground arith

  pub Move-IsSound :
      (w : Workflow V) (to : WorkflowState) (f : Fields V)
      → IsSound w
      → Move w to f
      → IsSound (updated to f w)
  unfolding updated
  Move-IsSound w to f h (submitting which e q r) = rw (q, r) (ground (arith, h.before, h.after))
  Move-IsSound w to f h (obtaining e s q r) = rw (q, r) (ground (arith, h.before, h.after))
  Move-IsSound w to f h (computing s q r) = rw (q, r) (ground (arith, h.before, h.after))
  Move-IsSound w to f h (stopping b s q r) = rw (q, r) (ground (arith, h.before, h.after))
  Move-IsSound w to f h (proving s q r) = rw (q, r) (ground (arith, h.before, h.after))
  Move-IsSound w to f h (verifying b s q r) = rw (q, r) (ground (arith, h.before, h.after))
  Move-IsSound w to f h (condemning b id n s q r) = rw (q, r) (ground (arith, h.before, h.after))
  Move-IsSound w to f h (failing b reason m s q r) = rw (q, r) (ground (arith, h.before, h.after))
  Move-IsSound w to f h (expiring b reason m s q r) = rw (q, r) (ground (arith, h.before, h.after))

  -- Whatever is called, in whatever order and with whatever evidence, every row stays sound: its
  -- interval of unverified work is closed exactly in a terminal state and in VERIFIED, it has a
  -- reason exactly in a terminal state, and the parts of its confirmed precommit are all there or all
  -- absent, absent in the first two states and there in all others but EXPIRED and FAILED.
  pub Steps-IsSound : (s t : Db V) → Steps s t → All IsSound s.workflows → All IsSound t.workflows
  Steps-IsSound s t xs h = Steps-All IsSound created-IsSound Move-IsSound s t xs h
