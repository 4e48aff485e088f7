-- ===== src/Tests/Attempts.antt =====
-- Two precommit intents of one network, and the attempts for them.
use tig_mining_pool_public.Common.{◌≤◌, ◌≡◌, true, none, refl, some, [], ◌∷◌, ok, inl, In, arith}
use tig_mining_pool_public.Common.Bytes.{cmp, codes}
use tig_mining_pool_public.Common.Max.{max?}
use tig_mining_pool_public.Gateway.Network.{testnet}
use tig_mining_pool_public.Workflow.Intent.{WriteIntent, IntentRow, precommit, prepared}
use tig_mining_pool_public.Workflow.Attempt.{
  AttemptRow, Ledger, WriteAttempt, ambiguous, accepted, in_lane,
}
use tig_mining_pool_public.Workflow.Attempt.Begin.{inserted, begin}
use tig_mining_pool_public.Workflow.Attempt.Resolve.{resolve, reconcile}
use tig_mining_pool_public.Workflow.Attempt.Steps
use tig_mining_pool_public.Workflow.Attempt.Lane.{count, IsLaned, Steps-IsLaned}
use tig_mining_pool_public.Workflow.Attempt.Holder.{holder, LaneStep, Step-LaneStep}
use tig_mining_pool_public.Workflow.Attempt.Reopened.{reopened, reopened-begins}

abbrev intent_1 : WriteIntent
intent_1 = record {
  intent_id = codes "i1";
  network = testnet;
  workflow_id = codes "w1";
  write_kind = precommit;
  generation = 1;
  benchmark_id = none;
  payload_digest = [];
  payload_artifact_id = none;
  trace_id = none;
  state = prepared;
}

abbrev row_2 : IntentRow
row_2 = record {
  intent = record intent_1 { intent_id = codes "i2"; workflow_id = codes "w2" };
  created_at = 6;
}

abbrev empty : Ledger
empty = record {
  leases = record {
    now = 10;
    in_range = λ _ _. true;
    has_workflow = λ _ _. true;
    rows = λ _. none;
  };
  intents = record { intent = intent_1; created_at = 5 } ∷ row_2 ∷ [];
  attempts = [];
}

abbrev begun : Ledger
begun = (begin (codes "a1") (codes "i1") empty).0

empty-IsLaned : IsLaned []
empty-IsLaned = record { lane = λ n. omega arith; bench = λ n id. omega arith }

Steps-IsLaned_example : IsLaned begun.attempts
Steps-IsLaned_example =
    Steps-IsLaned empty begun (Steps.goes empty begun Steps.stays (Steps.begins _ _ empty))
      empty-IsLaned

holder-begun : holder testnet begun ≡ some (codes "a1")
unfolding begin inserted cmp max?
holder-begun = refl

Step-LaneStep_example : LaneStep none (some (codes "a1"))
unfolding begin inserted cmp max?
Step-LaneStep_example =
    Step-LaneStep testnet empty empty begun empty-IsLaned Steps.stays
      (Steps.begins (codes "a1") (codes "i1") empty)

abbrev row_1 : AttemptRow
row_1 = record {
  attempt_id = codes "a1";
  intent_id = codes "i1";
  attempt_no = 1;
  network = testnet;
  write_kind = precommit;
  benchmark_id = none;
  started_at = 10;
  outcome = some accepted;
  http_status = none;
  detail = none;
  reconciled = true;
}

-- Its response was lost, and found later.
abbrev found : Ledger
found = reopened (codes "a1") ambiguous none none accepted begun

found_row : In row_1 found.attempts
unfolding begin inserted cmp max? resolve reconcile
found_row = inl refl

one_begun : count (in_lane testnet) begun.attempts ≤ 1
unfolding begin inserted cmp max?
one_begun = omega arith

reopened-begins_example :
    (holder testnet found ≡ none)
    × ((attempt : WriteAttempt) × ((begin (codes "a2") (codes "i2") found).1 ≡ ok attempt))
    × (holder testnet (begin (codes "a2") (codes "i2") found).0 ≡ some (codes "a2"))
unfolding begin inserted cmp max? resolve reconcile
reopened-begins_example =
    reopened-begins testnet (codes "a1") (codes "a2") (codes "i2") ambiguous accepted none none
      begun row_2 one_begun holder-begun refl refl refl refl refl refl refl
