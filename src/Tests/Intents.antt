-- ===== src/Tests/Intents.antt =====
-- One precommit intent, created twice and settled.
use tig_mining_pool_public.Common.{
  ◌≡◌, ◌≢◌, ap, true, none, some, refl, List, [], ◌∷◌, ok, err, arith, ℕ,
}
use tig_mining_pool_public.Common.Bytes.{Bytes, cmp, codes}
use tig_mining_pool_public.Gateway.Network.{testnet}
use tig_mining_pool_public.Workflow.Intent.{
  WriteIntent, IntentRow, IntentState, confirmed, rejected, outcome_unknown, precommit,
}
use tig_mining_pool_public.Workflow.Intent.Repository.{
  NewIntent, payload_conflict, already_settled, is_confirmed, is_rejected, recorded, find, create,
  settle,
}
use tig_mining_pool_public.Workflow.Intent.Recorded.{with_payload, create-Once}
use tig_mining_pool_public.Workflow.Intent.Settled.{IsKey, settle-Once}

abbrev new : NewIntent
new = record {
  network = testnet;
  workflow_id = codes "w1";
  write_kind = precommit;
  generation = 1;
  benchmark_id = none;
  payload_digest = 1 ∷ [];
  payload_artifact_id = none;
  trace_id = none;
}

abbrev rows : List IntentRow
rows = (create (λ n. true) (codes "i1") 5 new []).0

created : (create (λ n. true) (codes "i1") 5 new []).1 ≡ ok (recorded (codes "i1") new)
unfolding create find
created = refl

abbrev first_byte : Bytes → ℕ
first_byte [] = 0
first_byte (b ∷ rest) = b

abbrev payload_2 : Bytes
payload_2 = 2 ∷ []

another_payload : payload_2 ≢ new.payload_digest
another_payload e = let q = ap first_byte e in absurd (omega arith)

create-Once_example :
    (find testnet (codes "w1") precommit 1 rows ≡ some (recorded (codes "i1") new))
    × (create (λ n. true) (codes "i2") 9 new rows ≡ (rows, ok (recorded (codes "i1") new)))
    × (create (λ n. true) (codes "i2") 9 (with_payload payload_2 new) rows
        ≡ (rows, err (payload_conflict testnet (codes "w1") precommit 1)))
create-Once_example =
    create-Once (λ n. true) (codes "i1") (codes "i2") payload_2 5 9 new []
      (recorded (codes "i1") new) created another_payload refl

abbrev unknown_rows : List IntentRow
unknown_rows =
    record {
      intent = record (recorded (codes "i1") new) { state = outcome_unknown };
      created_at = 5;
    }
    ∷ []

abbrev settled : WriteIntent
settled = record (recorded (codes "i1") new) { state = confirmed }

is_key : IsKey (codes "i1") unknown_rows
unfolding cmp
is_key = omega arith

settled_now : (settle (codes "i1") (is_confirmed (codes "b1")) unknown_rows).1 ≡ ok settled
unfolding settle cmp
settled_now = refl

abbrev is_final : IntentState → ℕ
is_final confirmed = 1
is_final rejected = 2
is_final _ = 0

apart : rejected ≢ confirmed
apart e = let q = ap is_final e in absurd (omega arith)

settle-Once_example :
    (confirmed ≡ confirmed)
    × (settle
          (codes "i1")
          (is_confirmed (codes "b2"))
          (settle (codes "i1") (is_confirmed (codes "b1")) unknown_rows).0
        ≡ ((settle (codes "i1") (is_confirmed (codes "b1")) unknown_rows).0, ok settled))
    × (settle
          (codes "i1")
          is_rejected
          (settle (codes "i1") (is_confirmed (codes "b1")) unknown_rows).0
        ≡ (
          (settle (codes "i1") (is_confirmed (codes "b1")) unknown_rows).0,
          err (already_settled (codes "i1") confirmed rejected),
        ))
settle-Once_example =
    settle-Once (codes "i1") (is_confirmed (codes "b1")) (is_confirmed (codes "b2")) is_rejected
      unknown_rows settled is_key settled_now refl apart
