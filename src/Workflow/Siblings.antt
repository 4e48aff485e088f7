-- ===== src/Workflow/Siblings.antt =====
-- crates/pool-workflow/src/intent.rs: the other generations of a precommit.
use tig_mining_pool_public.Common.{ℕ, compare, Bool, not, ◌&&◌, Option, none, some, map, keep}
use tig_mining_pool_public.Common.Bytes.{Bytes, same}
use tig_mining_pool_public.Common.Max.{max?}
use tig_mining_pool_public.Gateway.Network.{Network}
use tig_mining_pool_public.Workflow.Intent.{WriteIntent, IntentRow}
use tig_mining_pool_public.Workflow.Attempt.{Ledger, is_precommit}
use tig_mining_pool_public.Workflow.Attempt.Queries.{
  any, of_workflow, intent_has_transmitted_attempt,
}

pub record PrecommitSiblings : Type 0 where
  pub newest_generation : ℕ
  pub sibling_transmitted : Bool

-- `i.network = $1 AND i.workflow_id = $2 AND i.write_kind = 'precommit'`
abbrev pub precommit_of : Network → Bytes → IntentRow → Bool
precommit_of network workflow_id r =
    of_workflow network workflow_id r.intent && is_precommit r.intent.write_kind

abbrev pub generation_or : ℕ → Option ℕ → ℕ
generation_or own none = own
generation_or own (some newest) = newest

unfoldable pub precommit_siblings : WriteIntent → Ledger → PrecommitSiblings
unfolding intent_has_transmitted_attempt
precommit_siblings intent l = record {
  newest_generation = generation_or intent.generation (
      max? compare (
        map (λ r. r.intent.generation)
          (keep (precommit_of intent.network intent.workflow_id) l.intents)));
  sibling_transmitted =
      any
        (λ r.
          precommit_of intent.network intent.workflow_id r
          && intent_has_transmitted_attempt r.intent.intent_id l
          && not (same r.intent.intent_id intent.intent_id))
        l.intents;
}
