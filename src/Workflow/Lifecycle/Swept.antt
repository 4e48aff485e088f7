-- ===== src/Workflow/Lifecycle/Swept.antt =====
-- crates/pool-workflow/src/workflow.rs: exactly what `expire_if_due` expires.
use tig_mining_pool_public.Common.{
  ◌≤◌, ◌≡◌, ◌≢◌, ◌⊎◌, [], ◌↔◌, refl, Bool, true, false, not, ◌&&◌, ◌==◌, Option, some, Result, ok,
  guard, fail_if, ◌>>◌, arith, Bool-cases, inl, inr,
}
use tig_mining_pool_public.Common.Bytes.{Bytes}
use tig_mining_pool_public.Common.Int.{ℤ}
use tig_mining_pool_public.Gateway.Network.{Network}
use tig_mining_pool_public.Workflow.Attempt.Queries.{unsettled_write_exists}
use tig_mining_pool_public.Workflow.Deadlines.{Guardrails, standing_at, band, age_of}
use tig_mining_pool_public.Workflow.Lifecycle.{
  is_terminal, is_unfinished_local_work, expired, Workflow, WorkflowError, unavailable,
  write_in_flight, benchmark_already_claimed, Db,
}
use tig_mining_pool_public.Workflow.Lifecycle.Table.{
  is_some, find, is_valid, may_follow, is_claimed, updated, write, transition_guarded, commit,
}
use tig_mining_pool_public.Workflow.Lifecycle.Decide.{reject_member_fault, closing, ended_fields}
use tig_mining_pool_public.Workflow.Lifecycle.Calls.{expire_inner}
use tig_mining_pool_public.Workflow.Lifecycle.Granted.{quiet-follows}
use tig_mining_pool_public.Workflow.Lifecycle.Expiry.{
  from_block, reason_code, expiry_answer, is_due, expire_found, expire_if_due,
}

module _ {V : Type 0} (g : Guardrails) (network : Network) (id : Bytes) (block : ℤ) where
  -- The row that an expiry makes of the workflow.
  abbrev pub expired_row : Workflow V → Workflow V
  expired_row w = updated expired (closing block (some (reason_code w))) w

  -- The work is unfinished, it is as old as the guardrail or older, no write of it waits for its
  -- outcome, and the table takes the expired row.
  pub record IsExpirable (w : Workflow V) (s : Db V) : Type 0 where
    pub unfinished : is_unfinished_local_work w.state ≡ true
    pub old : g.workflow_expiry_age_blocks ≤ age_of (from_block network id w s) block
    pub settled : unsettled_write_exists network id s.ledger ≡ false
    pub valid : is_valid (expired_row w) ≡ true
    pub unclaimed : is_claimed (expired_row w) s ≡ false

  is_due_iff :
      (w : Workflow V) (s : Db V)
      → (is_due g network id block w s ≡ true) ↔ (
          (is_unfinished_local_work w.state ≡ true)
          × (g.workflow_expiry_age_blocks ≤ age_of (from_block network id w s) block))
  unfolding is_due standing_at band
  is_due_iff w s = ground arith

  reason_passes : (w : Workflow V) → reject_member_fault (reason_code w) ≡ ok tt
  unfolding reject_member_fault
  reason_passes w = elim (Bool-cases (is_some w.confirmed_track_id)) [
    | inl e ↦ rw e refl
    | inr e ↦ rw e refl
  ]

  follows : (w : Workflow V) → may_follow w (expired_row w) ≡ true
  follows w = quiet-follows w expired (closing block (some (reason_code w))) refl refl refl refl

  -- The expiry of a workflow that is due, up to the conditions of its `UPDATE`.
  inner_lem :
      (w : Workflow V) (s : Db V)
      → find network id s ≡ some w
      → is_unfinished_local_work w.state ≡ true
      → expire_inner network id w.revision (reason_code w) block true s
        ≡ commit s (do
          fail_if (unsettled_write_exists network id s.ledger) (write_in_flight network id)
          guard (is_valid (expired_row w)) unavailable
          fail_if (is_claimed (expired_row w) s) (benchmark_already_claimed w.network [])
          ok (expired_row w))
  unfolding expire_inner transition_guarded ended_fields write is_unfinished_local_work
  inner_lem w s e h =
      let opened : is_terminal w.state ≡ false = opened_of (is_terminal w.state) _ h in
      let same_revision : (w.revision == w.revision) ≡ true = ground arith in
      rw (reason_passes w, e, same_revision, opened, follows w) refl
    where
      opened_of : (a b : Bool) → (not a && not b) ≡ true → a ≡ false
      opened_of a b q = ground arith

  -- What the sweep makes of a workflow: the expired row, or nothing.
  abbrev pub Sweeps : Workflow V → Db V → Db V × Result WorkflowError (Option (Workflow V)) → Type 0
  Sweeps w s r =
      (IsExpirable w s × (r ≡ ((commit s (ok (expired_row w))).0, ok (some (expired_row w)))))
      ⊎ ((¬ IsExpirable w s) × (r.0 ≡ s) × ((new : Workflow V) → r.1 ≢ ok (some new)))

  due-Sweeps :
      (w : Workflow V) (s : Db V)
      → is_unfinished_local_work w.state ≡ true
      → g.workflow_expiry_age_blocks ≤ age_of (from_block network id w s) block
      → Sweeps w s (
          expiry_answer (
            commit s (do
              fail_if (unsettled_write_exists network id s.ledger) (write_in_flight network id)
              guard (is_valid (expired_row w)) unavailable
              fail_if (is_claimed (expired_row w) s) (benchmark_already_claimed w.network [])
              ok (expired_row w))))
  unfolding expiry_answer commit
  due-Sweeps w s u o = elim (Bool-cases (unsettled_write_exists network id s.ledger)) [
    | inl a ↦ rw a (inr (λ h. let x = h.settled in cc, refl, λ new q. cc))
    | inr a ↦ elim (Bool-cases (is_valid (expired_row w))) [
      | inr v ↦ rw (a, v) (inr (λ h. let x = h.valid in cc, refl, λ new q. cc))
      | inl v ↦ elim (Bool-cases (is_claimed (expired_row w) s)) [
        | inl c ↦ rw (a, v, c) (inr (λ h. let x = h.unclaimed in cc, refl, λ new q. cc))
        | inr c ↦
            rw (a, v, c)
              (inl
                (record { unfinished = u; old = o; settled = a; valid = v; unclaimed = c }, refl))
      ]
    ]
  ]

  -- A workflow that is there is expired exactly where its local work is unfinished, its age since
  -- TIG started the benchmark, or since the anchor of its latest decision, has reached the guardrail,
  -- no write of it waits for its outcome, and the table takes the row: then the expired row is
  -- stored and returned. Otherwise nothing is stored and no workflow is returned.
  pub expire_if_due-Sweeps :
      (w : Workflow V) (s : Db V)
      → find network id s ≡ some w
      → Sweeps w s (expire_if_due g network id block s)
  unfolding expire_if_due expire_found
  expire_if_due-Sweeps w s e = elim (Bool-cases (is_due g network id block w s)) [
    | inl d ↦ let (u, o) = (is_due_iff w s).0 d in rw (e, d, inner_lem w s e u) (due-Sweeps w s u o)
    | inr d ↦
        rw (e, d)
          (inr (λ h. let x = (is_due_iff w s).1 (h.unfinished, h.old) in cc, refl, λ new q. cc))
  ]
