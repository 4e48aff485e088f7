-- ===== src/Workflow/Deadlines/Guarded.antt =====
-- crates/pool-workflow/src/deadlines.rs: which guardrails are accepted.
use tig_mining_pool_public.Common.{◌+◌, ◌<◌, ◌≡◌, ◌↔◌, ok, arith}
use tig_mining_pool_public.Common.Words.{u32_size}
use tig_mining_pool_public.Workflow.Deadlines.{Guardrails, all_positive, validate}

-- Positive ages in order, and a reserve that is what lies between the package and the expiry.
pub record IsGuarded (g : Guardrails) : Type 0 where
  pub positive_assignment : 0 < g.max_assignment_age_blocks
  pub positive_reserve : 0 < g.proof_reserve_blocks
  pub assigned_before_due : g.max_assignment_age_blocks < g.package_due_age_blocks
  pub reserve_adds_up :
      g.package_due_age_blocks + g.proof_reserve_blocks ≡ g.workflow_expiry_age_blocks

-- Guardrails whose values are each a `u32` are accepted exactly where they are positive, assignment
-- ends before the package is due, and the package's age and the reserve add up, with no wrap, to
-- the age of expiry.
pub validate-IsGuarded :
    (g : Guardrails) → g.workflow_expiry_age_blocks < u32_size → (validate g ≡ ok g) ↔ IsGuarded g
unfolding validate all_positive
validate-IsGuarded g w = (
  λ e. record {
    positive_assignment = ground arith;
    positive_reserve = ground arith;
    assigned_before_due = ground arith;
    reserve_adds_up = ground arith;
  },
  λ h.
      ground (
        arith, h.positive_assignment, h.positive_reserve, h.assigned_before_due, h.reserve_adds_up,
      ),
)
