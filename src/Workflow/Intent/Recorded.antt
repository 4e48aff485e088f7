-- ===== src/Workflow/Intent/Recorded.antt =====
-- crates/pool-workflow/src/intent.rs: an intent is recorded once, and settles once.
use tig_mining_pool_public.Common.{
  ℕ, ◌==◌, ◌≡◌, ◌≢◌, inl, inr, refl, ap, ◌∙◌, subst, leb, Bool, true, false, ◌&&◌, Bool-cases,
  Option, none, some, List, ◌∷◌, find?, Result-cases, ok, err, ok_inj, arith,
}
use tig_mining_pool_public.Common.Bytes.{Bytes, same, cmp-eq_iff, same_refl}
use tig_mining_pool_public.Gateway.Network.{Network, is_same}
use tig_mining_pool_public.Workflow.Intent.{
  WriteKind, WriteIntent, IntentRow, is_benchmark_bound, is_kind,
}
use tig_mining_pool_public.Workflow.Intent.Repository.{
  NewIntent, payload_conflict, same_option, recorded, differs, has_id, is_free, insert_or_keep,
  bind, find, create,
}

is_same_refl : (n : Network) → is_same n n ≡ true
is_same_refl n = ground arith

is_kind_refl : (k : WriteKind) → is_kind k k ≡ true
is_kind_refl k = ground arith

same_option_refl : (o : Option Bytes) → same_option o o ≡ true
same_option_refl none = refl
same_option_refl (some a) = same_refl a

differs-recorded :
    (intent_id : Bytes) (new : NewIntent) → differs (recorded intent_id new) new ≡ false
differs-recorded intent_id new =
    rw
      (
        same_refl new.payload_digest,
        same_option_refl new.benchmark_id,
        same_option_refl new.payload_artifact_id,
      )
      refl

abbrev found : NewIntent → List IntentRow → Option WriteIntent
unfolding find
found new rows = find new.network new.workflow_id new.write_kind new.generation rows

found-recorded :
    (intent_id : Bytes) (now : ℕ) (new : NewIntent) (rows : List IntentRow)
    → found new (record { intent = recorded intent_id new; created_at = now } ∷ rows)
      ≡ some (recorded intent_id new)
unfolding find
found-recorded intent_id now new rows =
    let g : (new.generation == new.generation) ≡ true = ground arith in
    rw (is_same_refl new.network, same_refl new.workflow_id, is_kind_refl new.write_kind, g) refl

inserted :
    (intent_id : Bytes) (now : ℕ) (new : NewIntent) (rows : List IntentRow) (o : Option WriteIntent)
    (i : WriteIntent)
    → found new rows ≡ o
    → (insert_or_keep intent_id now new o rows).1 ≡ ok i
    → (found new (insert_or_keep intent_id now new o rows).0 ≡ some i) × (differs i new ≡ false)
inserted intent_id now new rows none i q e =
    elim (Bool-cases (is_free (find? (has_id intent_id) rows))) [
      | inl f ↦
          let k = ok_inj (rw f at e) in
          rw f (
            found-recorded intent_id now new rows ∙ ap some k,
            subst (λ x. differs x new ≡ false) k (differs-recorded intent_id new),
          )
      | inr f ↦ let k = rw f at e in cc
    ]
inserted intent_id now new rows (some existing) i q e = elim (Bool-cases (differs existing new)) [
  | inl d ↦ let k = rw d at e in cc
  | inr d ↦
      let k = ok_inj (rw d at e) in rw d (q ∙ ap some k, subst (λ x. differs x new ≡ false) k d)
]

-- What a successful `create` leaves.
abbrev Leaves : (NewIntent → Bool) → NewIntent → WriteIntent → List IntentRow → Type 0
Leaves permits new i rows =
    (bind (is_benchmark_bound new.write_kind) new.write_kind new.benchmark_id ≡ ok tt)
    × (permits new && leb 1 new.generation ≡ true)
    × (found new rows ≡ some i)
    × (differs i new ≡ false)

create-Leaves :
    (permits : NewIntent → Bool) (intent_id : Bytes) (now : ℕ) (new : NewIntent)
    (rows : List IntentRow) (i : WriteIntent)
    → (create permits intent_id now new rows).1 ≡ ok i
    → Leaves permits new i (create permits intent_id now new rows).0
unfolding create
create-Leaves permits intent_id now new rows i e =
    elim (Result-cases (bind (is_benchmark_bound new.write_kind) new.write_kind new.benchmark_id)) [
      | inr (_, b) ↦ let k = rw b at e in cc
      | inl (_, b) ↦ elim (Bool-cases (permits new && leb 1 new.generation)) [
        | inr p ↦ let k = rw (b, p) at e in cc
        | inl p ↦
            let (f, d) = inserted intent_id now new rows (found new rows) i refl (rw (b, p) at e) in
            rw (b, p) (refl, refl, f, d)
      ]
    ]

abbrev pub with_payload : Bytes → NewIntent → NewIntent
with_payload digest new = record new { payload_digest = digest }

module _ (permits : NewIntent → Bool) (other_id : Bytes) (later : ℕ) (new : NewIntent)
    (i : WriteIntent) (rows : List IntentRow) where
  again : Leaves permits new i rows → create permits other_id later new rows ≡ (rows, ok i)
  unfolding create
  again (b, q, f, d) = rw (b, q, f, d) refl

  conflicts :
      (digest : Bytes)
      → Leaves permits new i rows
      → digest ≢ new.payload_digest
      → permits (with_payload digest new) ≡ true
      → create permits other_id later (with_payload digest new) rows
        ≡ (rows, err (payload_conflict new.network new.workflow_id new.write_kind new.generation))
  unfolding create
  conflicts digest (b, q, f, d) n p =
      let g : permits (with_payload digest new) && leb 1 new.generation ≡ true = ground arith in
      let own : i.payload_digest ≡ new.payload_digest =
        (cmp-eq_iff i.payload_digest new.payload_digest).0 (ground arith) in
      let x : same i.payload_digest digest ≡ false =
        ground (arith, cmp-eq_iff i.payload_digest digest) in
      rw (b, g, f, x) refl

-- Once an intent was created or found again, `find` gives it; creating the same again, with any
-- identifier and at any time, gives the same intent and adds no row; and creating one for its key
-- with another payload, where the other tables permit it, adds no row and is a conflict.
pub create-Once :
    (permits : NewIntent → Bool) (intent_id other_id digest : Bytes) (now later : ℕ)
    (new : NewIntent) (rows : List IntentRow) (i : WriteIntent)
    → (create permits intent_id now new rows).1 ≡ ok i
    → digest ≢ new.payload_digest
    → permits (with_payload digest new) ≡ true
    → (find new.network new.workflow_id new.write_kind new.generation
          (create permits intent_id now new rows).0
        ≡ some i)
      × (create permits other_id later new (create permits intent_id now new rows).0
          ≡ ((create permits intent_id now new rows).0, ok i))
      × (create permits other_id later
            (with_payload digest new)
            (create permits intent_id now new rows).0
          ≡ (
            (create permits intent_id now new rows).0,
            err (payload_conflict new.network new.workflow_id new.write_kind new.generation),
          ))
unfolding find found
create-Once permits intent_id other_id digest now later new rows i e n p =
    let left = create-Leaves permits intent_id now new rows i e in
    let (_, _, f, _) = left in
    (
      f,
      again permits other_id later new i (create permits intent_id now new rows).0 left,
      conflicts permits other_id later new i (create permits intent_id now new rows).0 digest left n
          p,
    )
