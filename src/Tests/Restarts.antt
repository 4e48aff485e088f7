-- ===== src/Tests/Restarts.antt =====
-- A restart that finds a workflow's whole course in the window.
use tig_mining_pool_public.Common.{
  ℕ, ◌≡◌, refl, false, some, List, [], ◌∷◌, ◌++◌, map, ok, err, inl, arith, In, ◌<◌, ◌↔◌, compare,
}
use tig_mining_pool_public.Common.Bytes.{Bytes, codes, cmp, contains}
use tig_mining_pool_public.Common.Int.{pos, negsuc}
use tig_mining_pool_public.Common.Map.{get}
use tig_mining_pool_public.Common.Sort.{sort_by, place}
use tig_mining_pool_public.Gateway.Network.{testnet}
use tig_mining_pool_public.Workflow.Lifecycle.{
  Workflow, ConfirmedBenchmark, ConfirmedProof, precommit_confirmed, verified, unavailable,
}
use tig_mining_pool_public.Workflow.Lifecycle.Table.{find, is_valid, may_follow, is_claimed}
use tig_mining_pool_public.Workflow.Lifecycle.Calls.{
  confirm_benchmark, confirm_proof, confirm_verified,
}
use tig_mining_pool_public.Workflow.Restart.{ConfirmedWindow, advance_one, reconcile_after_restart}
use tig_mining_pool_public.Workflow.Restart.Reported.{TakesTurn, reconcile_after_restart-Reports}
use tig_mining_pool_public.Workflow.Restart.CaughtUp.{IsWaiting, HasAll, advance_one-CatchesUp}
use tig_mining_pool_public.Workflow.Restart.Gaps.{
  BlockDataGap, is_at, opened, record_block_gap, open_block_gaps,
}
use tig_mining_pool_public.Workflow.Restart.Observed.{record_block_gap-Records}
use tig_mining_pool_public.Workflow.Attempt.Queries.{any}
use tig_mining_pool_public.Tests.Lifecycles.{work, evidence, obtained, two, finds_two}

abbrev b1 : Bytes
b1 = codes "b1"

abbrev benchmark : ConfirmedBenchmark
benchmark = record { benchmark_id = b1; stopped = false; block_confirmed = pos 120 }

abbrev proof : ConfirmedProof
proof = record { benchmark_id = b1; block_confirmed = pos 130 }

abbrev window : ConfirmedWindow Bytes
window = record {
  precommits = (b1, evidence) ∷ [];
  benchmarks = (b1, benchmark) ∷ [];
  proofs = (b1, proof) ∷ [];
  frauds = [];
  verified = b1 ∷ [];
  active = b1 ∷ [];
  at_block = pos 140;
}

waits : IsWaiting testnet window work b1 obtained two
unfolding is_valid is_claimed cmp
waits = record {
  found = finds_two;
  on = refl;
  named = refl;
  waits = refl;
  owns = refl;
  opened = refl;
  unended = refl;
  valid = refl;
  sole = refl;
  room = ground arith;
  before = ground arith;
}

has_all : HasAll testnet window work b1 benchmark proof
unfolding contains cmp get
has_all = record {
  no_fraud = refl;
  benchmark = refl;
  of_benchmark = refl;
  goes = refl;
  proof = refl;
  of_proof = refl;
  is_verified = refl;
}

advance_one-CatchesUp_example :
    (done : Workflow Bytes) × (find testnet work (advance_one testnet window obtained two).0
      ≡ some done)
    × (done.state ≡ verified)
    × (done.unverified_to_block ≡ some (pos 140))
    × ((advance_one testnet window obtained two).1 ≡ [])
    × ((advance_one testnet window obtained two).2 ≡ ok verified)
advance_one-CatchesUp_example =
    advance_one-CatchesUp testnet window work b1 obtained two benchmark proof waits has_all

reconcile_after_restart-Reports_example :
    TakesTurn testnet window obtained two
      (reconcile_after_restart testnet window two).0
      (reconcile_after_restart testnet window two).1
reconcile_after_restart-Reports_example =
    reconcile_after_restart-Reports testnet window two obtained (inl refl) refl refl

-- The workflow is in the report as advanced, and nothing stands against claiming work.
report_of_two : (reconcile_after_restart testnet window two).1 ≡ record {
  advanced = (record { workflow_id = work; from = precommit_confirmed; to = verified }) ∷ [];
  unchanged = [];
  needs_attention = [];
}
unfolding reconcile_after_restart is_valid may_follow is_claimed cmp contains get sort_by place
    confirm_benchmark confirm_proof confirm_verified
report_of_two = refl

-- One missing height was settled before, the other was not known.
abbrev settled : BlockDataGap
settled = record (opened testnet 102 104 103) { resolution = some (9, codes "lost", codes "op") }

record_block_gap-Records_example :
    (new : List ℕ) × (record_block_gap testnet (pos 102) (pos 105) (settled ∷ [])
      ≡ some ((settled ∷ []) ++ map (opened testnet 102 105) new, ok (sort_by compare new)))
    × (In 104 new ↔ ((102 < 104) × (104 < 105) × (any (is_at testnet 104) (settled ∷ []) ≡ false)))
record_block_gap-Records_example =
    record_block_gap-Records testnet 102 105 (settled ∷ []) 104 (omega arith)

records_104 :
    record_block_gap testnet (pos 102) (pos 105) (settled ∷ [])
    ≡ some (settled ∷ opened testnet 102 105 104 ∷ [], ok (104 ∷ []))
unfolding record_block_gap place
records_104 = refl

opens_104 : open_block_gaps testnet (settled ∷ opened testnet 102 105 104 ∷ []) ≡ 104 ∷ []
unfolding open_block_gaps place
opens_104 = refl

rejects_below_zero : record_block_gap testnet (negsuc 3) (pos 2) [] ≡ some ([], err unavailable)
unfolding record_block_gap
rejects_below_zero = refl
