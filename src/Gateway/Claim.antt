-- ===== src/Gateway/Claim.antt =====
-- crates/tig-gateway/src/claim.rs: what the gateway does with a write intent that it has claimed. The
-- digests of the payloads and the pinned table of compute types are parameters.
pub mod Decide
pub mod Once
pub mod Lone
pub mod Commitment
use tig_mining_pool_public.Common.{
  ℕ, suc, ltb, Bool, true, false, not, ◌&&◌, ◌||◌, if◌then◌else◌, Option, none, some, List, [], ◌∷◌,
  find?, Result, ok, err, ◌>>=◌, ok_or,
}
use tig_mining_pool_public.Common.Bytes.{Bytes, codes, same}
use tig_mining_pool_public.Common.Map.{Map, get}
use tig_mining_pool_public.Workflow.Attempt.{
  WriteAttempt, AttemptOutcome, accepted, rejected, ambiguous, is_unresolved,
}
use tig_mining_pool_public.Workflow.Payload.{Json}
use tig_mining_pool_public.Workflow.Reconcile.{
  Reconciliation, no_candidate, pending_confirmation, stop_for_operator, ReconcileError, shape,
  block_confirmed,
}

-- Why an intent is unreadable: an attempt of another intent, a record that the search could not
-- read, or no benchmark where one is due.
pub data Unreadable : Type 0 where
  stray_attempt : Bytes → Bytes → Bytes → Unreadable
  unusable_precommit : ℕ → Bytes → Unreadable
  no_benchmark_id : Unreadable

pub data StopReason : Type 0 where
  sibling_generation_transmitted : ℕ → StopReason
  payload_not_the_recorded_one : StopReason
  compute_type_not_served : Bytes → Option Bytes → List Bytes → StopReason
  unknown_outcome_with_no_attempt : StopReason
  multiple_candidates : List Bytes → StopReason
  write_unaccounted_for : StopReason
  unreadable : Unreadable → StopReason

pub data SkipReason : Type 0 where
  not_a_precommit : Bytes → SkipReason
  refused : SkipReason
  superseded_by_newer_generation : ℕ → SkipReason
  already_settled : SkipReason
  no_built_payload : SkipReason
  workflow_ended : Bytes → SkipReason

pub data ClaimDecision : Type 0 where
  transmit : ClaimDecision
  already_confirmed : Bytes → ClaimDecision
  await_confirmation : ClaimDecision
  stop : StopReason → ClaimDecision
  skip : SkipReason → ClaimDecision

pub record OwningWorkflow : Type 0 where
  pub state : Bytes
  pub is_terminal : Bool

pub record SiblingGenerations : Type 0 where
  pub newest_generation : ℕ
  pub sibling_transmitted : Bool

-- `Iterator::any` and `Iterator::all`
abbrev pub any {ℓ} : {A : Type ℓ} → (A → Bool) → List A → Bool
any p [] = false
any p (x ∷ xs) = p x || any p xs

abbrev pub every {ℓ} : {A : Type ℓ} → (A → Bool) → List A → Bool
every p [] = true
every p (x ∷ xs) = p x && every p xs

abbrev pub was_accepted : WriteAttempt → Bool
was_accepted a = elim a.outcome [
  | some accepted ↦ true
  | some rejected ↦ false
  | some ambiguous ↦ false
  | none ↦ false
]

abbrev pub was_rejected : WriteAttempt → Bool
was_rejected a = elim a.outcome [
  | some rejected ↦ true
  | some accepted ↦ false
  | some ambiguous ↦ false
  | none ↦ false
]

-- `reconciled`, on what the search returned.
unfoldable pub reconciled : Result ReconcileError Reconciliation → Bool → ClaimDecision
reconciled (ok (Reconciliation.confirmed id)) accepted_ = already_confirmed id
reconciled (ok pending_confirmation) accepted_ = await_confirmation
reconciled (ok (stop_for_operator ids)) accepted_ = stop (multiple_candidates ids)
reconciled (ok no_candidate) true = await_confirmation
reconciled (ok no_candidate) false = stop write_unaccounted_for
reconciled (err (shape index reason)) accepted_ =
    stop (unreadable (unusable_precommit index reason))

-- The class, where it is one of the two.
abbrev pub known_class : Option Bytes → Option Bytes
known_class none = none
known_class (some class) =
    if same class (codes "cpu")
    then some (codes "cpu")
    else (if same class (codes "gpu") then some (codes "gpu") else none)

-- `compute_class_of`, over the table's types and classes of each vendor.
unfoldable pub compute_class_of : Map (List Bytes) → Map Bytes → Bytes → Option Bytes
compute_class_of [] class_by_vendor compute_type = none
compute_class_of ((vendor, types) ∷ rest) class_by_vendor compute_type =
    if any (λ t. same t compute_type) types
    then known_class (get vendor class_by_vendor)
    else compute_class_of rest class_by_vendor compute_type

abbrev pub is_served : Option Bytes → List Bytes → Bool
is_served none served = false
is_served (some class) served = any (λ s. same s class) served

pub data ConfirmedReadError : Type 0 where
  no_id : ℕ → ConfirmedReadError

module _ {Value : Type 0} (json : Json Value) where
  abbrev pub id_of : Option Value → Option Bytes
  id_of none = none
  id_of (some v) = json.as_str v

  -- `ConfirmedBenchmarks::from_read`, from an index on.
  unfoldable pub from_read : ℕ → List Value → Result ConfirmedReadError (List Bytes)
  unfolding block_confirmed
  from_read index [] = ok []
  from_read index (entry ∷ rest) =
      let ids = from_read (suc index) rest in
      if not (block_confirmed json entry) then ids else (do
        id ← ok_or (id_of (json.get (codes "id") entry)) (no_id index)
        rest_ids ← ids
        ok (id ∷ rest_ids))
