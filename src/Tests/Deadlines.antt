-- ===== src/Tests/Deadlines.antt =====
-- The guardrails that config/tig_integration.json ships.
use tig_mining_pool_public.Common.{◌≡◌, ◌↔◌, true, ok, refl, arith}
use tig_mining_pool_public.Common.Int.{pos}
use tig_mining_pool_public.Workflow.Deadlines.{
  Guardrails, validate, age_of, standing_at, may_assign, band,
}
use tig_mining_pool_public.Workflow.Deadlines.Guarded.{IsGuarded, validate-IsGuarded}

abbrev shipped : Guardrails
shipped = record {
  max_assignment_age_blocks = 60;
  package_due_age_blocks = 110;
  workflow_expiry_age_blocks = 120;
  proof_reserve_blocks = 10;
}

shipped-IsGuarded : IsGuarded shipped
shipped-IsGuarded = record {
  positive_assignment = omega arith;
  positive_reserve = omega arith;
  assigned_before_due = omega arith;
  reserve_adds_up = refl;
}

validate-IsGuarded_example : (validate shipped ≡ ok shipped) ↔ IsGuarded shipped
validate-IsGuarded_example = validate-IsGuarded shipped (omega arith)

assigned_at_1059 : may_assign shipped (pos 1000) (pos 1059) ≡ true
unfolding may_assign standing_at age_of band
assigned_at_1059 = refl
