-- ===== src/Workflow/Attempt/Queries.antt =====
-- crates/pool-workflow/src/attempt.rs: what the ledger is asked about.
use tig_mining_pool_public.Common.{
  compare, Ordering, Bool, true, false, ◌&&◌, ◌||◌, Option, none, some, List, [], ◌∷◌, map, keep,
}
use tig_mining_pool_public.Common.Bytes.{Bytes, same}
use tig_mining_pool_public.Common.Sort.{sort_by}
use tig_mining_pool_public.Gateway.Network.{Network, is_same}
use tig_mining_pool_public.Workflow.Intent.{WriteIntent}
use tig_mining_pool_public.Workflow.Attempt.{
  AttemptOutcome, accepted, rejected, ambiguous, AttemptRow, Ledger, WriteAttempt, is_unresolved,
  row_to_attempt, is_precommit,
}
use tig_mining_pool_public.Workflow.Attempt.Begin.{of_intent}

abbrev pub by_number : AttemptRow → AttemptRow → Ordering
by_number a b = compare a.attempt_no b.attempt_no

-- `attempts_for`
unfoldable pub attempts_for : Bytes → Ledger → List WriteAttempt
attempts_for intent_id l =
    map (row_to_attempt l.leases.now) (sort_by by_number (keep (of_intent intent_id) l.attempts))

abbrev pub any {ℓ} : {A : Type ℓ} → (A → Bool) → List A → Bool
any p [] = false
any p (x ∷ xs) = p x || any p xs

abbrev pub of_workflow : Network → Bytes → WriteIntent → Bool
of_workflow network workflow_id i = is_same i.network network && same i.workflow_id workflow_id

-- `unsettled_write_exists!`
unfoldable pub unsettled_write_exists : Network → Bytes → Ledger → Bool
unsettled_write_exists network workflow_id l =
    any
      (λ r.
        of_workflow network workflow_id r.intent
        && any (λ a. of_intent r.intent.intent_id a && is_unresolved a.outcome) l.attempts)
      l.intents

abbrev pub may_have_reached : Option AttemptOutcome → Bool
may_have_reached none = true
may_have_reached (some accepted) = true
may_have_reached (some rejected) = false
may_have_reached (some ambiguous) = true

-- `intent_has_transmitted_attempt!`
unfoldable pub intent_has_transmitted_attempt : Bytes → Ledger → Bool
intent_has_transmitted_attempt intent_id l =
    any (λ a. of_intent intent_id a && may_have_reached a.outcome) l.attempts

-- `transmitted_precommit_exists!`, and the function that asks it alone.
unfoldable pub has_transmitted_precommit_write : Network → Bytes → Ledger → Bool
unfolding intent_has_transmitted_attempt
has_transmitted_precommit_write network workflow_id l =
    any
      (λ r.
        of_workflow network workflow_id r.intent
        && is_precommit r.intent.write_kind
        && intent_has_transmitted_attempt r.intent.intent_id l)
      l.intents
