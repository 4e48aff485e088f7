-- ===== src/Tests/Claims.antt =====
-- A precommit and a commitment that are ready to be sent, and a read with one record that matches.
use tig_mining_pool_public.Common.{
  ℕ, ◌≡◌, ◌↔◌, true, false, Bool, none, refl, some, Option, List, [], ◌∷◌, ok,
}
use tig_mining_pool_public.Common.Bytes.{Bytes, cmp, codes}
use tig_mining_pool_public.Common.Map.{Map, get}
use tig_mining_pool_public.Common.Max.{max?}
use tig_mining_pool_public.Common.Sort.{sort_by}
use tig_mining_pool_public.Gateway.Network.{testnet}
use tig_mining_pool_public.Workflow.Intent.{WriteIntent, precommit, benchmark, prepared}
use tig_mining_pool_public.Workflow.Attempt.{Ledger}
use tig_mining_pool_public.Workflow.Attempt.Queries.{
  attempts_for, intent_has_transmitted_attempt, has_transmitted_precommit_write,
}
use tig_mining_pool_public.Workflow.Payload.{Json, PrecommitSubmission, BenchmarkSubmission}
use tig_mining_pool_public.Workflow.Reconcile.{
  confirmed, hyperparameters_match, block_confirmed, candidate_of, matches, matches_from,
  reconcile_precommit,
}
use tig_mining_pool_public.Workflow.Reconcile.Found.{Only, reconcile_precommit-Finds}
use tig_mining_pool_public.Workflow.Siblings.{precommit_siblings}
use tig_mining_pool_public.Gateway.Claim.{
  OwningWorkflow, SiblingGenerations, transmit, compute_class_of,
}
use tig_mining_pool_public.Gateway.Claim.Decide.{decide_unsent, decide, decide_benchmark}
use tig_mining_pool_public.Gateway.Claim.Once.{IsSendable, decide-transmit_iff}
use tig_mining_pool_public.Gateway.Claim.Lone.{siblings_of, decide-Lone}
use tig_mining_pool_public.Gateway.Claim.Commitment.{IsDue, decide_benchmark-transmit_iff}

mutual
  data Node : Type 0 where
    null : Node
    text : Bytes → Node
    number : ℕ → Node
    object : Fields → Node

  data Fields : Type 0 where
    end : Fields
    field : Bytes → Node → Fields → Fields

abbrev to_map : Fields → Map Node
to_map end = []
to_map (field k v rest) = (k, v) ∷ to_map rest

abbrev fields_of : Node → Option (Map Node)
fields_of (object fields) = some (to_map fields)
fields_of null = none
fields_of (text t) = none
fields_of (number n) = none

abbrev text_in : Node → Option Bytes
text_in (text t) = some t
text_in null = none
text_in (number n) = none
text_in (object fields) = none

abbrev number_in : Node → Option ℕ
number_in (number n) = some n
number_in null = none
number_in (text t) = none
number_in (object fields) = none

abbrev is_null_node : Node → Bool
is_null_node null = true
is_null_node (text t) = false
is_null_node (number n) = false
is_null_node (object fields) = false

abbrev get_in : Bytes → Option (Map Node) → Option Node
get_in k none = none
get_in k (some m) = get k m

abbrev json : Json Node
json = record {
  get = λ k v. get_in k (fields_of v);
  as_str = text_in;
  as_u64 = number_in;
  as_object = fields_of;
  is_null = is_null_node;
  to_string = λ v. [];
}

abbrev submitted : PrecommitSubmission Node
submitted = record {
  player_id = codes "p";
  block_id = codes "b";
  challenge_id = codes "c";
  algorithm_id = codes "a";
  compute_type = codes "aws";
  track_settings =
      (codes "t", record { num_bundles = 2; fuel_budget = 9; hyperparameters = [] }) ∷ [];
}

abbrev settings : Node
settings = object (
    field (codes "player_id") (text (codes "p")) (
      field (codes "block_id") (text (codes "b")) (
        field (codes "challenge_id") (text (codes "c")) (
          field (codes "algorithm_id") (text (codes "a"))
            (field (codes "track_id") (text (codes "t")) end)))))

abbrev details : Node
details = object (
    field (codes "compute_type") (text (codes "aws"))
      (field (codes "num_bundles") (number 2) (field (codes "fuel_budget") (number 9) end)))

abbrev entry : Bytes → Node → Node
entry id kind = object (
    field (codes "benchmark_id") (text id) (
      field (codes "settings") settings (
        field (codes "details") kind
          (field (codes "state") (object (field (codes "block_confirmed") (number 7) end)) end))))

abbrev other_details : Node
other_details = object (
    field (codes "compute_type") (text (codes "gpu"))
      (field (codes "num_bundles") (number 2) (field (codes "fuel_budget") (number 9) end)))

abbrev read : List Node
read = entry (codes "x") other_details ∷ entry (codes "y") details ∷ []

search : reconcile_precommit json read submitted ≡ ok (confirmed (codes "y"))
unfolding reconcile_precommit matches_from candidate_of block_confirmed matches
    hyperparameters_match get cmp
search = refl

reconcile_precommit-Finds_example : Only json submitted read (codes "y") true
reconcile_precommit-Finds_example =
    reconcile_precommit-Finds json submitted read (confirmed (codes "y")) search

abbrev intent : WriteIntent
intent = record {
  intent_id = codes "i1";
  network = testnet;
  workflow_id = codes "w1";
  write_kind = precommit;
  generation = 1;
  benchmark_id = none;
  payload_digest = 1 ∷ [];
  payload_artifact_id = none;
  trace_id = none;
  state = prepared;
}

abbrev ledger : Ledger
ledger = record {
  leases = record {
    now = 10;
    in_range = λ _ _. true;
    has_workflow = λ _ _. true;
    rows = λ _. none;
  };
  intents = record { intent = intent; created_at = 5 } ∷ [];
  attempts = [];
}

abbrev running : OwningWorkflow
running = record { state = codes "DECIDED"; is_terminal = false }

abbrev types : Map (List Bytes)
types = (codes "amazon", codes "aws" ∷ []) ∷ []

abbrev classes : Map Bytes
classes = (codes "amazon", codes "cpu") ∷ []

abbrev digest : PrecommitSubmission Node → Bytes
digest s = 1 ∷ []

abbrev newest : SiblingGenerations
newest = record { newest_generation = 1; sibling_transmitted = false }

decide-transmit_iff_example :
    (decide json digest types classes intent [] running newest submitted read (codes "cpu" ∷ [])
      ≡ transmit)
    ↔ IsSendable intent [] running newest
        (1 ∷ [])
        (compute_class_of types classes (codes "aws"))
        (codes "cpu" ∷ [])
decide-transmit_iff_example =
    decide-transmit_iff json digest types classes intent [] running newest submitted read
      (codes "cpu" ∷ [])

sends :
    decide json digest types classes intent
      (attempts_for (codes "i1") ledger)
      running
      (siblings_of (precommit_siblings intent ledger))
      submitted
      read
      (codes "cpu" ∷ [])
    ≡ transmit
unfolding decide decide_unsent compute_class_of attempts_for precommit_siblings
    intent_has_transmitted_attempt max? sort_by get cmp
sends = refl

decide-Lone_example : has_transmitted_precommit_write testnet (codes "w1") ledger ≡ false
decide-Lone_example =
    decide-Lone json digest types classes intent ledger running submitted read (codes "cpu" ∷ [])
      sends

abbrev commitment : WriteIntent
commitment = record intent { write_kind = benchmark; benchmark_id = some (codes "y") }

abbrev body : BenchmarkSubmission
body = record { benchmark_id = codes "y"; merkle_root = []; solution_quality = [] }

decide_benchmark-transmit_iff_example :
    (decide_benchmark (λ s. 1 ∷ []) commitment [] running [] (some body) ≡ transmit)
    ↔ IsDue (λ s. 1 ∷ []) commitment [] running [] (some body)
decide_benchmark-transmit_iff_example =
    decide_benchmark-transmit_iff (λ s. 1 ∷ []) commitment [] running [] (some body)
