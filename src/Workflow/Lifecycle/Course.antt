-- ===== src/Workflow/Lifecycle/Course.antt =====
-- crates/pool-workflow/src/workflow.rs: the course that a piece of work takes, without the calls.
use tig_mining_pool_public.Common.{
  ℕ, suc, ◌+◌, ◌≡◌, refl, sym, ap, ◌∙◌, subst, true, false, ◌||◌, some, All, All-In, arith,
}
use tig_mining_pool_public.Common.Bytes.{Bytes}
use tig_mining_pool_public.Common.Int.{ℤ}
use tig_mining_pool_public.Gateway.Network.{Network}
use tig_mining_pool_public.Workflow.Lifecycle.{
  WorkflowState, decided, precommit_submitted, precommit_confirmed, benchmark_submitted,
  benchmark_confirmed, proof_submitted, proof_confirmed, verified, stopped, fraudulent, failed,
  expired, is_terminal, is_state, Workflow, Fields, Db,
}
use tig_mining_pool_public.Workflow.Lifecycle.Table.{coalesce, find, updated}
use tig_mining_pool_public.Workflow.Lifecycle.Decide.{
  Submitted, precommit, benchmark, proof, submitted_from, submitted_to,
}
use tig_mining_pool_public.Workflow.Lifecycle.Moves.{
  Move, submitting, obtaining, computing, stopping, proving, verifying, condemning, failing,
  expiring,
}
use tig_mining_pool_public.Workflow.Lifecycle.Turns.{Step-Turn}
use tig_mining_pool_public.Workflow.Lifecycle.Kept.{
  find-In, same_found, new_found, move_found, Turn-Turned,
}
use tig_mining_pool_public.Workflow.Lifecycle.Sound.{IsSound, is_unconfirmed, Steps-IsSound}
use tig_mining_pool_public.Workflow.Lifecycle.Steps.{Steps, stays, goes}

-- The arrows between the states. What TIG confirmed may skip the state of its own submission.
pub data Arrow : WorkflowState → WorkflowState → Type 0 where
  sends_precommit : Arrow decided precommit_submitted
  obtains_unsent : Arrow decided precommit_confirmed
  obtains : Arrow precommit_submitted precommit_confirmed
  sends_benchmark : Arrow precommit_confirmed benchmark_submitted
  computes_unsent : Arrow precommit_confirmed benchmark_confirmed
  computes : Arrow benchmark_submitted benchmark_confirmed
  stops_unsent : Arrow precommit_confirmed stopped
  stops : Arrow benchmark_submitted stopped
  sends_proof : Arrow benchmark_confirmed proof_submitted
  proves_unsent : Arrow benchmark_confirmed proof_confirmed
  proves : Arrow proof_submitted proof_confirmed
  verifies : Arrow proof_confirmed verified
  condemns :
      (a : WorkflowState) → is_unconfirmed a ≡ false → is_terminal a ≡ false → Arrow a fraudulent
  fails : (a : WorkflowState) → is_terminal a ≡ false → Arrow a failed
  expires : (a : WorkflowState) → is_terminal a ≡ false → Arrow a expired

-- A way along the arrows, with its length.
pub data Way : WorkflowState → WorkflowState → ℕ → Type 0 where
  rests : (a : WorkflowState) → Way a a 0
  passes : (a b c : WorkflowState) (n : ℕ) → Arrow a b → Way b c n → Way a c (suc n)

submit-Arrow :
    (which : Submitted) (a b : WorkflowState)
    → a ≡ submitted_from which
    → b ≡ submitted_to which
    → Arrow a b
submit-Arrow precommit a b p q = rw (p, q) sends_precommit
submit-Arrow benchmark a b p q = rw (p, q) sends_benchmark
submit-Arrow proof a b p q = rw (p, q) sends_proof

obtain-Arrow : (a : WorkflowState) → is_unconfirmed a ≡ true → Arrow a precommit_confirmed
obtain-Arrow decided h = obtains_unsent
obtain-Arrow precommit_submitted h = obtains
obtain-Arrow _ h = cc

compute-Arrow :
    (a : WorkflowState)
    → (is_state a precommit_confirmed || is_state a benchmark_submitted) ≡ true
    → Arrow a benchmark_confirmed × Arrow a stopped
compute-Arrow precommit_confirmed h = (computes_unsent, stops_unsent)
compute-Arrow benchmark_submitted h = (computes, stops)
compute-Arrow _ h = cc

prove-Arrow :
    (a : WorkflowState)
    → (is_state a benchmark_confirmed || is_state a proof_submitted) ≡ true
    → Arrow a proof_confirmed
prove-Arrow benchmark_confirmed h = proves_unsent
prove-Arrow proof_submitted h = proves
prove-Arrow _ h = cc

verify-Arrow : (a : WorkflowState) → is_state a proof_confirmed ≡ true → Arrow a verified
verify-Arrow proof_confirmed h = verifies
verify-Arrow _ h = cc

some_inj : {A : Type 0} {a b : A} → some a ≡ some b → a ≡ b
some_inj e = cc

module _ {V : Type 0} where
  Move-Arrow :
      (w : Workflow V) (to : WorkflowState) (f : Fields V)
      → IsSound w
      → Move w to f
      → Arrow w.state to
  Move-Arrow w to f h (submitting which e q r) = submit-Arrow which w.state to e q
  Move-Arrow w to f h (obtaining e s q r) = rw q (obtain-Arrow w.state s)
  Move-Arrow w to f h (computing s q r) = rw q (compute-Arrow w.state s).0
  Move-Arrow w to f h (stopping b s q r) = rw q (compute-Arrow w.state s).1
  Move-Arrow w to f h (proving s q r) = rw q (prove-Arrow w.state s)
  Move-Arrow w to f h (verifying b s q r) = rw q (verify-Arrow w.state s)
  Move-Arrow w to f h (condemning b id n s q r) =
      rw q (condemns w.state (ground (arith, h.before)) s)
  Move-Arrow w to f h (failing b reason m s q r) = rw q (fails w.state s)
  Move-Arrow w to f h (expiring b reason m s q r) = rw q (expires w.state s)

  -- The second row is the first one after `n` transitions. Its owner and the block that it counts
  -- from are as they were; its benchmark, its start and the end of its interval stay once they are
  -- there.
  pub record Follows (old new : Workflow V) (n : ℕ) : Type 0 where
    pub way : Way old.state new.state n
    pub revision : new.revision ≡ old.revision + n
    pub owner : new.owner ≡ old.owner
    pub owner_id : new.owner_id ≡ old.owner_id
    pub from : new.unverified_from_block ≡ old.unverified_from_block
    pub benchmark : (id : Bytes) → old.benchmark_id ≡ some id → new.benchmark_id ≡ some id
    pub start : (block : ℤ) → old.block_started ≡ some block → new.block_started ≡ some block
    pub close :
        (block : ℤ) → old.unverified_to_block ≡ some block → new.unverified_to_block ≡ some block

  stays-Follows : (w : Workflow V) → Follows w w 0
  stays-Follows w = record {
    way = rests w.state;
    revision = omega arith;
    owner = refl;
    owner_id = refl;
    from = refl;
    benchmark = λ id e. e;
    start = λ block e. e;
    close = λ block e. e;
  }

  Move-stays :
      (w : Workflow V) (to : WorkflowState) (f : Fields V)
      → IsSound w
      → Move w to f
      → ((id : Bytes) → w.benchmark_id ≡ some id → coalesce f.benchmark_id w.benchmark_id ≡ some id)
        × ((block : ℤ)
            → w.block_started ≡ some block
            → coalesce f.block_started w.block_started ≡ some block)
  Move-stays w to f h (submitting which e q r) = rw r (λ id k. k, λ b k. k)
  Move-stays w to f h (obtaining e s q r) =
      let absent = h.before s in (λ id k. cc, λ b k. let gone = h.start in ground arith)
  Move-stays w to f h (computing s q r) = rw r (λ id k. k, λ b k. k)
  Move-stays w to f h (stopping b s q r) = rw r (λ id k. k, λ b k. k)
  Move-stays w to f h (proving s q r) = rw r (λ id k. k, λ b k. k)
  Move-stays w to f h (verifying b s q r) = rw r (λ id k. k, λ b k. k)
  Move-stays w to f h (condemning b id n s q r) = rw r (λ id k. k, λ b k. k)
  Move-stays w to f h (failing b reason m s q r) = rw r (λ id k. k, λ b k. k)
  Move-stays w to f h (expiring b reason m s q r) = rw r (λ id k. k, λ b k. k)

  moves-Follows :
      (w new : Workflow V) (to : WorkflowState) (f : Fields V) (n : ℕ)
      → IsSound w
      → Move w to f
      → Follows (updated to f w) new n
      → Follows w new (suc n)
  unfolding updated
  moves-Follows w new to f n h m k =
      let (same_benchmark, same_start) = Move-stays w to f h m in
      record {
        way = passes w.state to new.state n (Move-Arrow w to f h m) k.way;
        revision = omega (arith, k.revision);
        owner = k.owner;
        owner_id = k.owner_id;
        from = k.from;
        benchmark = λ id e. k.benchmark id (same_benchmark id e);
        start = λ block e. k.start block (same_start block e);
        close = λ block e. k.close block (ap (λ x. coalesce x f.unverified_to_block) e);
      }

  -- Whatever is called, a sound workflow goes on along the arrows of its course: each transition is
  -- one arrow and adds one to the revision, no arrow leaves a terminal state, and on the way its
  -- owner and the start of its interval stay, as its benchmark, its start and the end of its interval
  -- do once they are there.
  pub Steps-Follows :
      (s t : Db V) (network : Network) (id : Bytes) (w : Workflow V)
      → Steps s t
      → All IsSound s.workflows
      → find network id s ≡ some w
      → (new : Workflow V) × (find network id t ≡ some new) × ((n : ℕ) × Follows w new n)
  Steps-Follows s t network id w (stays u) h e = (w, e, (0, stays-Follows w))
  Steps-Follows s t network id w (goes a b c x xs) h e =
      let sound = Steps-IsSound a b (goes a b b x (stays b)) h in
      elim (Turn-Turned network id a b (Step-Turn a b x)) [
        | same_found q ↦ Steps-Follows b c network id w xs sound (q ∙ e)
        | new_found q ↦ cc
        | move_found old to f q m r ↦
            let (i, _, _) = find-In network id a old q in
            let (new, k, (n, l)) = Steps-Follows b c network id (updated to f old) xs sound r in
            let same_row : old ≡ w = some_inj (sym q ∙ e) in
            subst (λ x. (y : Workflow V) × (find network id c ≡ some y) × ((z : ℕ) × Follows x y z))
              same_row
              (
                new,
                k,
                (suc n, moves-Follows old new to f n (All-In IsSound old a.workflows h i) m l),
              )
      ]
