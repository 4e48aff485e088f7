-- ===== src/Workflow/Deadlines/Bands.antt =====
-- crates/pool-workflow/src/deadlines.rs: where a piece of work stands at a block.
use tig_mining_pool_public.Common.{ℕ, ◌+◌, ◌-◌, ◌^◌, ◌⊎◌, ◌≤◌, ◌<◌, ◌≡◌, ◌↔◌, true, arith}
use tig_mining_pool_public.Common.Int.{ℤ, pos, ◌≤ℤ◌}
use tig_mining_pool_public.Common.Words.{u32_size}
use tig_mining_pool_public.Workflow.Deadlines.{
  Guardrails, Standing, assignable, running_out, in_proof_reserve, expired, age_of, band,
  standing_at, may_assign,
}
use tig_mining_pool_public.Workflow.Deadlines.Guarded.{IsGuarded}

-- The interval of ages that a standing names.
abbrev pub Spans : Guardrails → Standing → ℕ → Type 0
Spans g assignable age = age < g.max_assignment_age_blocks
Spans g running_out age = (g.max_assignment_age_blocks ≤ age) × (age < g.package_due_age_blocks)
Spans g in_proof_reserve age =
    (g.package_due_age_blocks ≤ age) × (age < g.workflow_expiry_age_blocks)
Spans g expired age = g.workflow_expiry_age_blocks ≤ age

band-Spans :
    (g : Guardrails) → IsGuarded g → (age : ℕ) (s : Standing) → (band g age ≡ s) ↔ Spans g s age
unfolding band
band-Spans g h age assignable = ground (arith, h.assigned_before_due, h.reserve_adds_up)
band-Spans g h age running_out = ground (arith, h.assigned_before_due, h.reserve_adds_up)
band-Spans g h age in_proof_reserve = ground (arith, h.assigned_before_due, h.reserve_adds_up)
band-Spans g h age expired = ground (arith, h.assigned_before_due, h.reserve_adds_up)

-- Under accepted guardrails the standing is the one whose interval of ages holds the age, and no
-- other.
pub standing_at-Spans :
    (g : Guardrails) (started current : ℤ) (s : Standing)
    → IsGuarded g
    → ((standing_at g started current).standing ≡ s) ↔ Spans g s (age_of started current)
unfolding standing_at
standing_at-Spans g started current s h = band-Spans g h (age_of started current) s

-- The age at a block that is not before the start is the number of blocks since, up to the largest
-- `u32`, for heights that are not negative; at a block before the start it is zero.
pub age_of_elapsed :
    (started current : ℕ)
    → current < 2 ^ 63
    → ((started + u32_size ≤ current) × (age_of (pos started) (pos current) ≡ u32_size - 1))
      ⊎ ((current < started + u32_size) × (age_of (pos started) (pos current) ≡ current - started))
unfolding age_of
age_of_elapsed started current h = ground arith

-- Under accepted guardrails, work that may be assigned has blocks left until its package is due, and
-- after these the whole reserve until it expires; work that may be assigned at a block may be assigned
-- at each block before it.
pub may_assign_in_time :
    (g : Guardrails) (started current earlier : ℤ)
    → IsGuarded g
    → may_assign g started current ≡ true
    → earlier ≤ℤ current
    → (0 < (standing_at g started current).until_package_due)
      × ((standing_at g started current).until_expiry
          ≡ (standing_at g started current).until_package_due + g.proof_reserve_blocks)
      × (may_assign g started earlier ≡ true)
unfolding may_assign standing_at band age_of
may_assign_in_time g started current earlier h e before = (
  ground (arith, h.assigned_before_due, h.reserve_adds_up),
  ground (arith, h.assigned_before_due, h.reserve_adds_up),
  ground (arith, h.assigned_before_due, h.reserve_adds_up),
)
