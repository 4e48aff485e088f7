-- ===== src/Workflow/Lifecycle/Final.antt =====
-- crates/pool-workflow/src/workflow.rs: what ends a piece of work, and what a revision is good for.
use tig_mining_pool_public.Common.{
  ℕ, ◌+◌, ◌<◌, ◌≤◌, ◌≡◌, refl, sym, ap, ◌∙◌, subst, Bool, true, false, ◌==◌, some, Result, ok, err,
  arith,
}
use tig_mining_pool_public.Common.Bytes.{Bytes}
use tig_mining_pool_public.Gateway.Network.{Network}
use tig_mining_pool_public.Workflow.Lifecycle.{
  WorkflowState, is_terminal, Workflow, WorkflowError, stale_revision, Fields, Db,
}
use tig_mining_pool_public.Workflow.Lifecycle.Table.{find, updated, transition_guarded, commit}
use tig_mining_pool_public.Workflow.Lifecycle.Decide.{precommit, benchmark, proof}
use tig_mining_pool_public.Workflow.Lifecycle.Moves.{
  Move, submitting, obtaining, computing, stopping, proving, verifying, condemning, failing,
  expiring, transition_guarded-Written,
}
use tig_mining_pool_public.Workflow.Lifecycle.Turns.{Step-Turn}
use tig_mining_pool_public.Workflow.Lifecycle.Kept.{
  find-In, same_found, new_found, move_found, Turn-Turned, find-replace,
}
use tig_mining_pool_public.Workflow.Lifecycle.Steps.{Steps, stays, goes}

module _ {V : Type 0} where
  Move-open :
      (w : Workflow V) (to : WorkflowState) (f : Fields V)
      → Move w to f
      → is_terminal w.state ≡ false
  Move-open w to f (submitting precommit e q r) = rw e refl
  Move-open w to f (submitting benchmark e q r) = rw e refl
  Move-open w to f (submitting proof e q r) = rw e refl
  Move-open w to f (obtaining e s q r) = ground arith
  Move-open w to f (computing s q r) = ground arith
  Move-open w to f (stopping b s q r) = ground arith
  Move-open w to f (proving s q r) = ground arith
  Move-open w to f (verifying b s q r) = ground arith
  Move-open w to f (condemning b id n s q r) = s
  Move-open w to f (failing b reason m s q r) = s
  Move-open w to f (expiring b reason m s q r) = s

  -- A workflow in a terminal state stays as it is, the whole row, whatever is called from then on:
  -- no later evidence, expiry or failure changes its state, its reason, its block or its revision.
  pub ended-Stays :
      (s t : Db V) (network : Network) (id : Bytes) (w : Workflow V)
      → Steps s t
      → find network id s ≡ some w
      → is_terminal w.state ≡ true
      → find network id t ≡ some w
  ended-Stays s t network id w (stays u) e h = e
  ended-Stays s t network id w (goes a b c x xs) e h =
      elim (Turn-Turned network id a b (Step-Turn a b x)) [
        | same_found q ↦ ended-Stays b c network id w xs (q ∙ e) h
        | new_found q ↦ cc
        | move_found old to f q m r ↦
            let closed = Move-open old to f m in
            let same_row : old ≡ w = some_inj (sym q ∙ e) in
            let open_still : is_terminal w.state ≡ false =
              subst (λ y. is_terminal y.state ≡ false) same_row closed in
            cc
      ]
    where
      some_inj : {A : Type 0} {a b : A} → some a ≡ some b → a ≡ b
      some_inj e = cc

  -- A revision does not go back.
  revision_grows :
      (s t : Db V) (network : Network) (id : Bytes) (w : Workflow V)
      → Steps s t
      → find network id s ≡ some w
      → (new : Workflow V) × (find network id t ≡ some new) × (w.revision ≤ new.revision)
  unfolding updated
  revision_grows s t network id w (stays u) e = (w, e, omega arith)
  revision_grows s t network id w (goes a b c x xs) e =
      elim (Turn-Turned network id a b (Step-Turn a b x)) [
        | same_found q ↦ revision_grows b c network id w xs (q ∙ e)
        | new_found q ↦ cc
        | move_found old to f q m r ↦
            let (new, k, l) = revision_grows b c network id (updated to f old) xs r in
            let same_row : old.revision ≡ w.revision = ap_revision (sym q ∙ e) in
            (new, k, omega arith)
      ]
    where
      ap_revision : {a b : Workflow V} → some a ≡ some b → a.revision ≡ b.revision
      ap_revision e = cc

  stale :
      (t : Db V) (network : Network) (id : Bytes) (r : ℕ) (to : WorkflowState) (guarded : Bool)
      (decide : Workflow V → Result WorkflowError (Fields V)) (w : Workflow V)
      → find network id t ≡ some w
      → r < w.revision
      → transition_guarded network id r to guarded decide t
        ≡ err (stale_revision network id r w.revision)
  unfolding transition_guarded
  stale t network id r to guarded decide w e l =
      let differs : (w.revision == r) ≡ false = ground arith in rw e (rw differs refl)

  -- A revision is good for one transition: after one that came out well, and whatever is called
  -- since, every other transition of that workflow that presents the same revision is refused as
  -- stale, and is told a later revision.
  pub transition_guarded-Once :
      (s t : Db V) (network : Network) (id : Bytes) (r : ℕ) (to : WorkflowState) (guarded : Bool)
      (decide : Workflow V → Result WorkflowError (Fields V)) (new : Workflow V)
      → transition_guarded network id r to guarded decide s ≡ ok new
      → Steps (commit s (ok new)).0 t
      → (other : WorkflowState) (other_guarded : Bool)
        (other_decide : Workflow V → Result WorkflowError (Fields V))
      → (found : ℕ) × (transition_guarded network id r other other_guarded other_decide t
          ≡ err (stale_revision network id r found))
        × (r < found)
  unfolding commit updated find
  transition_guarded-Once s t network id r to guarded decide new e xs other other_guarded
        other_decide =
      let h = transition_guarded-Written network id r to guarded decide s new e in
      let (_, same_network, same_id) = find-In network id s h.current h.found in
      let there =
        find-replace network id h.current new s.workflows h.found
          (ap (λ x. x.network) h.row ∙ same_network) (ap (λ x. x.workflow_id) h.row ∙ same_id) in
      let next : new.revision ≡ h.current.revision + 1 = ap (λ x. x.revision) h.row in
      let (w, k, l) = revision_grows (commit s (ok new)).0 t network id new xs there in
      let at = h.at_revision in
      (
        w.revision,
        stale t network id r other other_guarded other_decide w k (omega arith),
        omega arith,
      )
