-- ===== src/Gateway/Claim/Lone.antt =====
-- crates/tig-gateway/src/claim.rs: a precommit that is sent is the first of its workflow.
use tig_mining_pool_public.Common.{
  ◌≡◌, refl, sym, ap, ◌∙◌, subst, false, not, ◌&&◌, Bool-cases, inl, inr, List, [], ◌∷◌, map, keep,
  length, arith,
}
use tig_mining_pool_public.Common.Bytes.{Bytes, same, cmp-eq_iff}
use tig_mining_pool_public.Common.Map.{Map}
use tig_mining_pool_public.Common.Sort.{sort_by, length-sort_by}
use tig_mining_pool_public.Gateway.Network.{Network}
use tig_mining_pool_public.Workflow.Intent.{WriteIntent, IntentRow}
use tig_mining_pool_public.Workflow.Attempt.{AttemptRow, Ledger, row_to_attempt, is_precommit}
use tig_mining_pool_public.Workflow.Attempt.Begin.{of_intent}
use tig_mining_pool_public.Workflow.Attempt.Queries.{
  any, by_number, of_workflow, may_have_reached, attempts_for, intent_has_transmitted_attempt,
  has_transmitted_precommit_write,
}
use tig_mining_pool_public.Workflow.Payload.{Json, PrecommitSubmission}
use tig_mining_pool_public.Workflow.Siblings.{PrecommitSiblings, precommit_of, precommit_siblings}
use tig_mining_pool_public.Gateway.Claim.{transmit, OwningWorkflow, SiblingGenerations}
use tig_mining_pool_public.Gateway.Claim.Decide.{decide}
use tig_mining_pool_public.Gateway.Claim.Once.{decide-transmit_iff}

-- What the driver passes on of `precommit_siblings`.
abbrev pub siblings_of : PrecommitSiblings → SiblingGenerations
siblings_of s = record {
  newest_generation = s.newest_generation;
  sibling_transmitted = s.sibling_transmitted;
}

nothing_kept :
    (id : Bytes) (rows : List AttemptRow)
    → length (keep (of_intent id) rows) ≡ 0
    → any (λ a. of_intent id a && may_have_reached a.outcome) rows ≡ false
nothing_kept id [] h = refl
nothing_kept id (r ∷ rows) h = ground (arith, nothing_kept id rows)

length-map : {A B : Type 0} (f : A → B) (xs : List A) → length (map f xs) ≡ length xs
length-map f [] = refl
length-map f (x ∷ xs) = omega (arith, length-map f xs)

unattempted :
    (id : Bytes) (l : Ledger) → attempts_for id l ≡ [] → intent_has_transmitted_attempt id l ≡ false
unfolding attempts_for intent_has_transmitted_attempt
unattempted id l h = nothing_kept id l.attempts (
    sym (length-sort_by by_number (keep (of_intent id) l.attempts))
    ∙ sym (
        length-map (row_to_attempt l.leases.now)
          (sort_by by_number (keep (of_intent id) l.attempts)))
    ∙ ap length h)

alone :
    (network : Network) (workflow_id id : Bytes) (l : Ledger) (rows : List IntentRow)
    → intent_has_transmitted_attempt id l ≡ false
    → any
        (λ r.
          precommit_of network workflow_id r
          && intent_has_transmitted_attempt r.intent.intent_id l
          && not (same r.intent.intent_id id))
        rows
      ≡ false
    → any
        (λ r.
          of_workflow network workflow_id r.intent
          && is_precommit r.intent.write_kind
          && intent_has_transmitted_attempt r.intent.intent_id l)
        rows
      ≡ false
alone network workflow_id id l [] own h = refl
alone network workflow_id id l (r ∷ rows) own h = elim (Bool-cases (same r.intent.intent_id id)) [
  | inl q ↦
      let e = (cmp-eq_iff r.intent.intent_id id).0 (ground arith) in
      let mine : intent_has_transmitted_attempt r.intent.intent_id l ≡ false =
        subst (λ k. intent_has_transmitted_attempt k l ≡ false) (sym e) own in
      ground (arith, alone network workflow_id id l rows own)
  | inr q ↦ ground (arith, alone network workflow_id id l rows own)
]

module _ {Value : Type 0} (json : Json Value) (precommit_digest : PrecommitSubmission Value → Bytes)
    (types_by_vendor : Map (List Bytes)) (class_by_vendor : Map Bytes) where
  -- Where the attempts and the siblings that `decide` is given are those of the ledger, a precommit is
  -- sent only if no precommit of its workflow may have reached TIG.
  pub decide-Lone :
      (intent : WriteIntent) (l : Ledger) (w : OwningWorkflow)
      (submitted : PrecommitSubmission Value) (read : List Value) (served : List Bytes)
      → decide json precommit_digest types_by_vendor class_by_vendor intent
          (attempts_for intent.intent_id l)
          w
          (siblings_of (precommit_siblings intent l))
          submitted
          read
          served
        ≡ transmit
      → has_transmitted_precommit_write intent.network intent.workflow_id l ≡ false
  unfolding has_transmitted_precommit_write precommit_siblings
  decide-Lone intent l w submitted read served e =
      let sent =
        (decide-transmit_iff json precommit_digest types_by_vendor class_by_vendor intent
            (attempts_for intent.intent_id l) w (siblings_of (precommit_siblings intent l))
            submitted read served).0
          e in
      alone intent.network intent.workflow_id intent.intent_id l l.intents
        (unattempted intent.intent_id l sent.unattempted) sent.alone
