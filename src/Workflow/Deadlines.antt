-- ===== src/Workflow/Deadlines.antt =====
-- crates/pool-workflow/src/deadlines.rs: the guardrails on the age of a piece of work. JSON is a
-- library's: `parse` reads the text, with its error where the text is not the wire record.
pub mod Guarded
pub mod Bands
use tig_mining_pool_public.Common.{
  ℕ, ◌-◌, ◌≤◌, ◌<◌, min, List, [], ◌∷◌, Option, some, Bool, true, false, ltb, leb, ◌==◌,
  if◌then◌else◌, Result, ok, err, ◌>>=◌, ◌>>◌, ok_or, map_err, guard, fail_if,
}
use tig_mining_pool_public.Common.Bytes.{Bytes, codes}
use tig_mining_pool_public.Common.Int.{ℤ, saturating_sub, from_0}
use tig_mining_pool_public.Common.Words.{u32_size, checked_add}

pub record Guardrails : Type 0 where
  pub max_assignment_age_blocks : ℕ
  pub package_due_age_blocks : ℕ
  pub workflow_expiry_age_blocks : ℕ
  pub proof_reserve_blocks : ℕ

pub data GuardrailError : Type 0 where
  malformed : Bytes → GuardrailError
  reserve_does_not_add_up : (package_due reserve expiry : ℕ) → GuardrailError
  assignment_after_package_due : (assignment package_due : ℕ) → GuardrailError
  not_positive : Bytes → GuardrailError

-- The loop over the named values.
unfoldable pub all_positive : List (Bytes × ℕ) → Result GuardrailError (Unit {0})
all_positive [] = ok tt
all_positive ((field, value) ∷ rest) =
    if value == 0 then err (not_positive field) else all_positive rest

-- The record that is read has the fields of the record that is returned.
unfoldable pub validate : Guardrails → Result GuardrailError Guardrails
validate g = do
  let disagree =
      reserve_does_not_add_up g.package_due_age_blocks g.proof_reserve_blocks
        g.workflow_expiry_age_blocks
  all_positive (
      (codes "max_assignment_age_blocks", g.max_assignment_age_blocks)
      ∷ (codes "package_due_age_blocks", g.package_due_age_blocks)
      ∷ (codes "workflow_expiry_age_blocks", g.workflow_expiry_age_blocks)
      ∷ (codes "proof_reserve_blocks", g.proof_reserve_blocks)
      ∷ [])
  reserved ← ok_or (checked_add u32_size g.package_due_age_blocks g.proof_reserve_blocks) disagree
  guard (reserved == g.workflow_expiry_age_blocks) disagree
  guard (ltb g.max_assignment_age_blocks g.package_due_age_blocks)
      (assignment_after_package_due g.max_assignment_age_blocks g.package_due_age_blocks)
  ok g

unfoldable pub from_config_json :
    (Bytes → Result Bytes Guardrails) → Bytes → Result GuardrailError Guardrails
from_config_json parse text = map_err malformed (parse text) >>= validate

pub data Standing : Type 0 where
  assignable running_out in_proof_reserve expired : Standing

pub record Remaining : Type 0 where
  pub age_blocks : ℕ
  pub standing : Standing
  pub until_package_due : ℕ
  pub until_expiry : ℕ

-- `current_block.saturating_sub(block_started).max(0)`, as a `u32` or the largest one.
unfoldable pub age_of : ℤ → ℤ → ℕ
age_of block_started current_block =
    min (from_0 (saturating_sub current_block block_started)) (u32_size - 1)

unfoldable pub band : Guardrails → ℕ → Standing
band g age =
    if leb g.workflow_expiry_age_blocks age
    then expired
    else (if leb g.package_due_age_blocks age
        then in_proof_reserve
        else (if leb g.max_assignment_age_blocks age then running_out else assignable))

unfoldable pub standing_at : Guardrails → ℤ → ℤ → Remaining
standing_at g block_started current_block =
    let age = age_of block_started current_block in
    record {
      age_blocks = age;
      standing = band g age;
      until_package_due = g.package_due_age_blocks - age;
      until_expiry = g.workflow_expiry_age_blocks - age;
    }

abbrev pub is_assignable : Standing → Bool
is_assignable assignable = true
is_assignable running_out = false
is_assignable in_proof_reserve = false
is_assignable expired = false

unfoldable pub may_assign : Guardrails → ℤ → ℤ → Bool
may_assign g block_started current_block =
    is_assignable (standing_at g block_started current_block).standing
