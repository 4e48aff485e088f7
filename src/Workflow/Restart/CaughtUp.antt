-- ===== src/Workflow/Restart/CaughtUp.antt =====
-- crates/pool-workflow/src/restart.rs: one pass catches up with what TIG did meanwhile.
use tig_mining_pool_public.Common.{
  ◌+◌, ◌<◌, ◌^◌, ◌≡◌, refl, ap, ◌∙◌, true, false, ◌||◌, none, some, [], ok, arith,
}
use tig_mining_pool_public.Common.Bytes.{Bytes, contains, same_refl}
use tig_mining_pool_public.Common.Int.{◌≤ℤ◌}
use tig_mining_pool_public.Common.Map.{get}
use tig_mining_pool_public.Gateway.Network.{Network}
use tig_mining_pool_public.Workflow.Attempt.{names}
use tig_mining_pool_public.Workflow.Lifecycle.{
  precommit_confirmed, benchmark_submitted, benchmark_confirmed, proof_confirmed, verified,
  is_terminal, is_state, Workflow, ConfirmedBenchmark, ConfirmedProof, Db,
}
use tig_mining_pool_public.Workflow.Lifecycle.Table.{find, is_valid, is_claimed, updated}
use tig_mining_pool_public.Workflow.Lifecycle.Decide.{
  unchanged, closing, expect_benchmark, benchmark_fields, proof_fields, verified_fields,
}
use tig_mining_pool_public.Workflow.Lifecycle.Calls.{
  confirm_benchmark, confirm_proof, confirm_verified,
}
use tig_mining_pool_public.Workflow.Lifecycle.Granted.{
  quiet-follows, is_claimed-replace, transition-writes, confirm_benchmark-goes, confirm_proof-eq,
  confirm_verified-eq,
}
use tig_mining_pool_public.Workflow.Restart.Rows
use tig_mining_pool_public.Workflow.Restart.Rows.{
  stored, sole_still, reaches, proven_revision, finds,
}
use tig_mining_pool_public.Workflow.Restart.Offered.{
  benchmark-on, proof-on, verified-on, close_up-verified, advance_one-on,
}
use tig_mining_pool_public.Workflow.Restart.{ConfirmedWindow, advance_one}

module _ {V : Type 0} (network : Network) (window : ConfirmedWindow V) (id b : Bytes) where
  -- The row of a benchmark that TIG confirmed the precommit of, with room for three transitions.
  pub record IsWaiting (w : Workflow V) (s : Db V) : Type 0 where
    pub found : find network id s ≡ some w
    pub on : w.network ≡ network
    pub named : w.workflow_id ≡ id
    pub waits :
        (is_state w.state precommit_confirmed || is_state w.state benchmark_submitted) ≡ true
    pub owns : w.benchmark_id ≡ some b
    pub opened : w.unverified_to_block ≡ none
    pub unended : w.terminal_reason ≡ none
    pub valid : is_valid w ≡ true
    pub sole : is_claimed w s ≡ false
    pub room : w.revision + 3 < 2 ^ 31
    pub before : w.unverified_from_block ≤ℤ window.at_block

  -- The window has all that TIG publishes of a benchmark that came through.
  pub record HasAll (e : ConfirmedBenchmark) (p : ConfirmedProof) : Type 0 where
    pub no_fraud : get b window.frauds ≡ none
    pub benchmark : get b window.benchmarks ≡ some e
    pub of_benchmark : e.benchmark_id ≡ b
    pub goes : e.stopped ≡ false
    pub proof : get b window.proofs ≡ some p
    pub of_proof : p.benchmark_id ≡ b
    pub is_verified : contains b window.verified ≡ true

  module _ (w : Workflow V) (s : Db V) (h : IsWaiting w s) where
    abbrev computed : Workflow V
    computed = Rows.computed w

    abbrev proven : Workflow V
    proven = Rows.proven w

    abbrev done : Workflow V
    done = Rows.done window.at_block w

    computed-valid : is_valid computed ≡ true
    unfolding is_valid updated
    computed-valid =
        let o = h.owns in
        let v = h.valid in let r = h.room in let u = h.opened in let x = h.unended in ground arith

    proven-valid : is_valid proven ≡ true
    unfolding is_valid updated
    proven-valid =
        let o = h.owns in
        let v = h.valid in let r = h.room in let u = h.opened in let x = h.unended in ground arith

    done-valid : is_valid done ≡ true
    unfolding is_valid updated
    done-valid =
        let o = h.owns in
        let v = h.valid in
        let r = h.room in let u = h.opened in let x = h.unended in let k = h.before in ground arith

    done_closed : done.unverified_to_block ≡ some window.at_block
    unfolding updated
    done_closed = rw h.opened refl

    abbrev s₁ : Db V
    s₁ = stored computed s

    abbrev s₂ : Db V
    s₂ = stored proven s₁

    abbrev s₃ : Db V
    s₃ = stored done s₂

    computed-named : (computed.network ≡ network) × (computed.workflow_id ≡ id)
    unfolding updated
    computed-named = (h.on, h.named)

    proven-named : (proven.network ≡ network) × (proven.workflow_id ≡ id)
    unfolding updated
    proven-named = (h.on, h.named)

    done-named : (done.network ≡ network) × (done.workflow_id ≡ id)
    unfolding updated
    done-named = (h.on, h.named)

    finds₁ : find network id s₁ ≡ some computed
    finds₁ = finds network id w computed s h.found computed-named.0 computed-named.1

    finds₂ : find network id s₂ ≡ some proven
    finds₂ = finds network id computed proven s₁ finds₁ proven-named.0 proven-named.1

    finds₃ : find network id s₃ ≡ some done
    finds₃ = finds network id proven done s₂ finds₂ done-named.0 done-named.1

    sole₁ : is_claimed computed s₁ ≡ false
    sole₁ =
        is_claimed-replace computed computed s refl refl
          (sole_still w benchmark_confirmed none none s h.sole)

    sole₂ : is_claimed proven s₂ ≡ false
    sole₂ =
        is_claimed-replace proven proven s₁ refl refl
          (sole_still computed proof_confirmed none none s₁ sole₁)

    module _ (e : ConfirmedBenchmark) (p : ConfirmedProof) (a : HasAll e p) where
      decides₁ : benchmark_fields network id e w ≡ ok unchanged
      unfolding benchmark_fields expect_benchmark
      decides₁ =
          let named_so : names e.benchmark_id w.benchmark_id ≡ true =
            rw (a.of_benchmark, h.owns) (same_refl b) in
          let runs : is_terminal w.state ≡ false = let x = h.waits in ground arith in
          rw (named_so, runs, h.waits, a.goes) refl

      decides₂ : proof_fields network id p computed ≡ ok unchanged
      unfolding proof_fields expect_benchmark updated
      decides₂ =
          let named_so : names p.benchmark_id w.benchmark_id ≡ true =
            rw (a.of_proof, h.owns) (same_refl b) in
          rw named_so refl

      decides₃ :
          verified_fields network id b window.at_block proven ≡ ok (closing window.at_block none)
      unfolding verified_fields expect_benchmark updated
      decides₃ =
          let named_so : names b w.benchmark_id ≡ true = rw h.owns (same_refl b) in rw named_so refl

      confirms₁ : confirm_benchmark network id w.revision e s ≡ (s₁, ok computed)
      confirms₁ =
          confirm_benchmark-goes network id w.revision e s a.goes
          ∙ transition-writes network id w.revision benchmark_confirmed
              (benchmark_fields network id e) s w unchanged h.found refl decides₁
              (quiet-follows w benchmark_confirmed unchanged refl refl refl refl) computed-valid
              (sole_still w benchmark_confirmed none none s h.sole)

      confirms₂ : confirm_proof network id (w.revision + 1) p s₁ ≡ (s₂, ok proven)
      confirms₂ =
          confirm_proof-eq network id (w.revision + 1) p s₁
          ∙ transition-writes network id (w.revision + 1) proof_confirmed
              (proof_fields network id p) s₁ computed unchanged finds₁
              (reaches benchmark_confirmed none none w).1 decides₂
              (quiet-follows computed proof_confirmed unchanged refl refl refl refl) proven-valid
              (sole_still computed proof_confirmed none none s₁ sole₁)

      confirms₃ :
          confirm_verified network id (w.revision + 1 + 1) b window.at_block s₂ ≡ (s₃, ok done)
      confirms₃ =
          confirm_verified-eq network id (w.revision + 1 + 1) b window.at_block s₂
          ∙ transition-writes network id (w.revision + 1 + 1) verified
              (verified_fields network id b window.at_block) s₂ proven
              (closing window.at_block none) finds₂ (proven_revision w) decides₃
              (quiet-follows proven verified (closing window.at_block none) refl refl refl refl)
              done-valid (sole_still proven verified (some window.at_block) none s₂ sole₂)

      caught_up : advance_one network window w s ≡ (s₃, [], ok verified)
      caught_up =
          let (at₁, next₁) = reaches benchmark_confirmed none none w in
          let (at₂, _) = reaches proof_confirmed none none computed in
          let (at₃, _) = reaches verified (some window.at_block) none proven in
          advance_one-on network window id b w s e h.owns h.named a.no_fraud a.benchmark
          ∙ (benchmark-on network window id b w.state benchmark_confirmed w.revision
                (w.revision + 1) s s₁ computed at₁ next₁ e confirms₁
              ∙ (proof-on network window id b benchmark_confirmed proof_confirmed (w.revision + 1)
                    (w.revision + 1 + 1) s₁ s₂ proven at₂ (proven_revision w) p a.proof confirms₂
                  ∙ (verified-on network window id b proof_confirmed verified (w.revision + 1 + 1)
                        done.revision s₂ s₃ done at₃ refl a.is_verified confirms₃
                      ∙ close_up-verified network window id b done.revision s₃)))

  -- A row that the constraints let in, with its precommit confirmed or its benchmark submitted, of a
  -- benchmark that no other row has, whose interval is open and began no later than the window's
  -- block, without a terminal reason and with room for three revisions, is brought the whole way in
  -- one pass when the window has the benchmark, not stopped, its proof and its verification, and no
  -- fraud entry: the row is verified afterwards, its interval is closed at the window's block, and
  -- nothing is pushed to the report.
  pub advance_one-CatchesUp :
      (w : Workflow V) (s : Db V) (e : ConfirmedBenchmark) (p : ConfirmedProof)
      → IsWaiting w s
      → HasAll e p
      → (done : Workflow V) × (find network id (advance_one network window w s).0 ≡ some done)
        × (done.state ≡ verified)
        × (done.unverified_to_block ≡ some window.at_block)
        × ((advance_one network window w s).1 ≡ [])
        × ((advance_one network window w s).2 ≡ ok verified)
  advance_one-CatchesUp w s e p h a =
      let run = caught_up w s h e p a in
      (
        done w s h,
        rw run (finds₃ w s h),
        (reaches verified (some window.at_block) none (proven w s h)).0,
        done_closed w s h,
        ap (λ x. x.1) run,
        ap (λ x. x.2) run,
      )
