-- ===== src/Workflow/Lifecycle/Table.antt =====
-- crates/pool-workflow/src/workflow.rs: the table pool.workflow, and the one transition that writes
-- to it, with the constraints, the index and the triggers of migrations 0006, 0007 and 0016.
use tig_mining_pool_public.Common.{
  ℕ, ◌+◌, ◌^◌, Bool, true, false, not, ◌&&◌, ◌||◌, ltb, leb, ◌==◌, if◌then◌else◌, Option, none,
  some, List, [], ◌∷◌, find?, Result, ok, err, ◌>>=◌, ◌>>◌, ok_or, guard, fail_if,
}
use tig_mining_pool_public.Common.Bytes.{Bytes, same}
use tig_mining_pool_public.Common.Int.{ℤ, pos, pos_part, neg_part}
use tig_mining_pool_public.Common.Map.{or_default}
use tig_mining_pool_public.Gateway.Network.{Network, testnet, is_same}
use tig_mining_pool_public.Workflow.Attempt.{names}
use tig_mining_pool_public.Workflow.Attempt.Queries.{any, unsettled_write_exists}
use tig_mining_pool_public.Workflow.Lifecycle.{
  Owner, pool_bootstrap, member, pool_bootstrap_owner, WorkflowState, decided, precommit_submitted,
  precommit_confirmed, benchmark_submitted, benchmark_confirmed, proof_submitted, proof_confirmed,
  verified, stopped, fraudulent, failed, expired, is_terminal, Workflow, WorkflowError, unavailable,
  write_in_flight, not_found, stale_revision, benchmark_already_claimed, Fields, Db,
}

-- `COALESCE`
abbrev pub coalesce : {A : Type 0} → Option A → Option A → Option A
coalesce none b = b
coalesce (some a) b = some a

abbrev pub is_some : {A : Type 0} → Option A → Bool
is_some none = false
is_some (some a) = true

abbrev pub leb_ℤ : ℤ → ℤ → Bool
leb_ℤ a b = leb (pos_part a + neg_part b) (pos_part b + neg_part a)

-- CHECK workflow_benchmark_id_follows_confirmation
abbrev pub benchmark_id_follows : WorkflowState → Bool → Bool
benchmark_id_follows decided owned = not owned
benchmark_id_follows precommit_submitted owned = not owned
benchmark_id_follows expired owned = true
benchmark_id_follows failed owned = true
benchmark_id_follows precommit_confirmed owned = owned
benchmark_id_follows benchmark_submitted owned = owned
benchmark_id_follows benchmark_confirmed owned = owned
benchmark_id_follows proof_submitted owned = owned
benchmark_id_follows proof_confirmed owned = owned
benchmark_id_follows verified owned = owned
benchmark_id_follows stopped owned = owned
benchmark_id_follows fraudulent owned = owned

-- CHECK workflow_confirmed_settings_arrive_together
abbrev pub arrive_together : Bool → Bool → Bool → Bool
arrive_together true b c = b && c
arrive_together false b c = not b && not c

-- CHECK workflow_unverified_interval_ordered
abbrev pub is_ordered : ℤ → Option ℤ → Bool
is_ordered from none = true
is_ordered from (some to) = leb_ℤ from to

-- CHECK workflow_block_started_non_negative
abbrev pub is_non_negative : Option ℤ → Bool
is_non_negative none = true
is_non_negative (some block) = leb_ℤ (pos 0) block

-- CHECK workflow_confirmed_num_nonces_positive
abbrev pub is_positive : Option ℤ → Bool
is_positive none = true
is_positive (some n) = leb_ℤ (pos 1) n

-- CHECK workflow_pool_owner_is_the_sentinel, workflow_bootstrap_is_testnet_only and
-- workflow_member_owner_is_not_the_sentinel
abbrev pub is_owner : Owner → Bytes → Network → Bool
is_owner pool_bootstrap owner_id network =
    same owner_id pool_bootstrap_owner && is_same network testnet
is_owner member owner_id network = not (same owner_id pool_bootstrap_owner)

-- What the trigger workflow_owner_is_immutable lets a `COALESCE` do: a benchmark stays, a start and
-- a nonce count stay (keeps_start), and a precommit that becomes confirmed has a start.
abbrev pub keeps_benchmark : Option Bytes → Option Bytes → Bool
keeps_benchmark none new = true
keeps_benchmark (some id) new = names id new

abbrev pub is_start : ℤ → Option ℤ → Bool
is_start block none = false
is_start block (some other) = leb_ℤ block other && leb_ℤ other block

abbrev pub keeps_start : Option ℤ → Option ℤ → Bool
keeps_start none new = true
keeps_start (some block) new = is_start block new

module _ {V : Type 0} where
  -- A row that the CHECK constraints let in, of a revision that is an `integer`.
  unfoldable pub is_valid : Workflow V → Bool
  is_valid w =
      ltb w.revision (2 ^ 31)
      && is_owner w.owner w.owner_id w.network
      && benchmark_id_follows w.state (is_some w.benchmark_id)
      && arrive_together (is_some w.confirmed_track_id) (is_some w.confirmed_settings)
          (is_some w.precommit_confirmed_block)
      && is_ordered w.unverified_from_block w.unverified_to_block
      && leb_ℤ (pos 0) w.unverified_from_block
      && is_non_negative w.block_started
      && is_positive w.confirmed_num_nonces
      && (not (is_some w.terminal_reason) || is_terminal w.state)

  unfoldable pub may_follow : Workflow V → Workflow V → Bool
  may_follow old new =
      keeps_benchmark old.benchmark_id new.benchmark_id
      && keeps_start old.block_started new.block_started
      && keeps_start old.confirmed_num_nonces new.confirmed_num_nonces
      && (is_some old.confirmed_track_id
          || not (is_some new.confirmed_track_id)
          || is_some new.block_started)

  abbrev pub is_row : Network → Bytes → Workflow V → Bool
  is_row network workflow_id w = is_same w.network network && same w.workflow_id workflow_id

  -- `find`
  unfoldable pub find : Network → Bytes → Db V → Option (Workflow V)
  find network workflow_id db = find? (is_row network workflow_id) db.workflows

  -- UNIQUE INDEX workflow_one_per_benchmark: another row of the network has the benchmark.
  abbrev pub holds : Workflow V → Workflow V → Bool
  holds new w =
      is_same w.network new.network
      && not (same w.workflow_id new.workflow_id)
      && elim new.benchmark_id [ none ↦ false | some id ↦ names id w.benchmark_id ]

  unfoldable pub is_claimed : Workflow V → Db V → Bool
  is_claimed new db = any (holds new) db.workflows

  -- The row that the `UPDATE` makes of the one that is there.
  unfoldable pub updated : WorkflowState → Fields V → Workflow V → Workflow V
  updated to f w = record w {
    state = to;
    revision = w.revision + 1;
    benchmark_id = coalesce f.benchmark_id w.benchmark_id;
    confirmed_track_id =
        coalesce (elim f.confirmed [ none ↦ none | some c ↦ some c.0 ]) w.confirmed_track_id;
    confirmed_settings =
        coalesce (elim f.confirmed [ none ↦ none | some c ↦ some c.1 ]) w.confirmed_settings;
    precommit_confirmed_block =
        coalesce (elim f.confirmed [ none ↦ none | some c ↦ some c.2 ]) w.precommit_confirmed_block;
    block_started = coalesce f.block_started w.block_started;
    confirmed_num_nonces = coalesce f.confirmed_num_nonces w.confirmed_num_nonces;
    unverified_to_block = coalesce w.unverified_to_block f.unverified_to_block;
    terminal_reason = coalesce f.terminal_reason w.terminal_reason;
  }

  -- The `UPDATE`, of the row that is locked.
  unfoldable pub write :
      WorkflowState → Fields V → Workflow V → Db V → Result WorkflowError (Workflow V)
  unfolding updated is_claimed
  write to fields current db = do
    let new = updated to fields current
    guard (may_follow current new && is_valid new) unavailable
    fail_if (is_claimed new db)
        (benchmark_already_claimed current.network (or_default [] fields.benchmark_id))
    ok new

  -- The transition up to its commit. `decide` reads the row that is locked.
  unfoldable pub transition_guarded :
      Network
      → Bytes
      → ℕ
      → WorkflowState
      → Bool
      → (Workflow V → Result WorkflowError (Fields V))
      → Db V
      → Result WorkflowError (Workflow V)
  unfolding find write
  transition_guarded network workflow_id at_revision to require_no_write_in_flight decide db = do
    current ← ok_or (find network workflow_id db) (not_found network workflow_id)
    guard (current.revision == at_revision)
        (stale_revision network workflow_id at_revision current.revision)
    fields ← decide current
    fail_if (require_no_write_in_flight && unsettled_write_exists network workflow_id db.ledger)
        (write_in_flight network workflow_id)
    write to fields current db

  -- The row in place of the one with its key.
  unfoldable pub replace : Workflow V → List (Workflow V) → List (Workflow V)
  replace w [] = []
  replace w (x ∷ xs) = if is_row w.network w.workflow_id x then w ∷ xs else x ∷ replace w xs

  -- `commit`, or the transaction that ends without it.
  unfoldable pub commit :
      Db V → Result WorkflowError (Workflow V) → Db V × Result WorkflowError (Workflow V)
  unfolding replace
  commit db (ok w) = (record db { workflows = replace w db.workflows }, ok w)
  commit db (err why) = (db, err why)
