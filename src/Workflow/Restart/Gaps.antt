-- ===== src/Workflow/Restart/Gaps.antt =====
-- crates/pool-workflow/src/restart.rs: the rows of the heights that were never observed, with the
-- constraints of migrations/0010. The sum of a height and one is checked, as in a build with overflow
-- checks; a build without them would start the range at the smallest `i64`.
use tig_mining_pool_public.Common.{
  ℕ, zero, suc, ◌+◌, ◌-◌, Bool, not, ◌&&◌, ◌==◌, leb, if◌then◌else◌, Option, none, some, List, [],
  ◌∷◌, ◌++◌, map, keep, Result, ok, err, compare,
}
use tig_mining_pool_public.Common.Bytes.{Bytes}
use tig_mining_pool_public.Common.Int.{ℤ, pos, negsuc, i64_max}
use tig_mining_pool_public.Common.Sort.{sort_by}
use tig_mining_pool_public.Gateway.Network.{Network, is_same}
use tig_mining_pool_public.Workflow.Attempt.Queries.{any}
use tig_mining_pool_public.Workflow.Lifecycle.{WorkflowError, unavailable}
use tig_mining_pool_public.Workflow.Lifecycle.Table.{is_some}

-- `resolution` is the three columns that arrive together.
pub record BlockDataGap : Type 0 where
  pub network : Network
  pub height : ℕ
  pub after_height : ℕ
  pub observed_height : ℕ
  pub resolution : Option (ℕ × Bytes × Bytes)

abbrev pub is_at : Network → ℕ → BlockDataGap → Bool
is_at network h gap = is_same gap.network network && gap.height == h

abbrev pub opened : Network → ℕ → ℕ → ℕ → BlockDataGap
opened network after_height observed_height h = record {
  network = network;
  height = h;
  after_height = after_height;
  observed_height = observed_height;
  resolution = none;
}

-- `from..from + n`
abbrev pub heights : ℕ → ℕ → List ℕ
heights from zero = []
heights from (suc n) = from ∷ heights (from + 1) n

-- The INSERT, a row at a time: the table, and the heights that are returned.
unfoldable pub insert_new :
    Network → ℕ → ℕ → List ℕ → List BlockDataGap → List BlockDataGap × List ℕ
insert_new network after observed [] gaps = (gaps, [])
insert_new network after observed (h ∷ rest) gaps =
    let known = any (is_at network h) gaps in
    let next = if known then gaps else gaps ++ opened network after observed h ∷ [] in
    let inserted = insert_new network after observed rest next in
    if known then inserted else (inserted.0, h ∷ inserted.1)

-- From heights that are not negative; one below zero fails the CHECK.
abbrev pub record_missing :
    Network → ℕ → ℕ → List BlockDataGap → List BlockDataGap × Result {0, 0} WorkflowError (List ℕ)
record_missing network after observed gaps =
    if leb observed (after + 1)
    then (gaps, ok [])
    else (let missing = heights (after + 1) (observed - (after + 1)) in
        let inserted = insert_new network after observed missing gaps in
        (inserted.0, ok (sort_by compare inserted.1)))

-- None where `after_height + 1` overflows an `i64`, at which the source panics.
unfoldable pub record_block_gap :
    Network
    → ℤ
    → ℤ
    → List BlockDataGap
    → Option (List BlockDataGap × Result {0, 0} WorkflowError (List ℕ))
unfolding insert_new sort_by
record_block_gap network (pos after) (pos observed) gaps =
    if leb i64_max after then none else some (record_missing network after observed gaps)
record_block_gap network (pos after) (negsuc n) gaps =
    if leb i64_max after then none else some (gaps, ok [])
record_block_gap network (negsuc m) (pos observed) gaps =
    some (if leb (observed + m) 0 then (gaps, ok []) else (gaps, err unavailable))
record_block_gap network (negsuc m) (negsuc n) gaps =
    some (if leb m (n + 1) then (gaps, ok []) else (gaps, err unavailable))

abbrev pub is_open : Network → BlockDataGap → Bool
is_open network gap = is_same gap.network network && not (is_some gap.resolution)

unfoldable pub open_block_gaps : Network → List BlockDataGap → List ℕ
unfolding sort_by
open_block_gaps network gaps = sort_by compare (map (λ g. g.height) (keep (is_open network) gaps))
