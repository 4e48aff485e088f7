-- ===== src/Lib.antt =====
-- The decision rules of a mining pool for TIG, and the rules of the services around them.
--
-- The pool is a Rust workspace. crates/pool-decision is its core: pure functions that decide from
-- one snapshot of the network which challenge to work on, with which algorithm, which benchmark's
-- settings to copy and how many bundles to ask for. crates/pool-controller gathers the snapshot, calls
-- those functions and stores the record of the decision; crates/tig-gateway sends what was decided,
-- through a gate that can be closed; crates/pool-workflow keeps each piece of work against its
-- deadlines, and after a restart advances it by what TIG published meanwhile.
--
-- Decision models crates/pool-decision/src. A function has its name of the source, and the body
-- of a loop or a part of a long function is a definition of its own:
--   Decision/Ratio        ratio.rs: exact rationals over `u128` (new, checked_add, checked_cmp, ..)
--   Decision/Compute      challenge.rs: OfferedCompute, ComputeType, matches_challenge
--   Decision/Challenge    challenge.rs: the data, and the filter of select_challenge (`consider`);
--     Challenge/Project   project: the expected addition of the benchmarks in flight
--     Challenge/Factor    projected_raw_factor_of
--     Challenge/Tie       lowest_factor and resolve_tie
--     Challenge/Select    select_challenge, which composes them
--   Decision/Source       source.rs: select_source
--   Decision/Algorithm    algorithm.rs: the filters of select_algorithm; Algorithm/Rates has track_rates,
--                         Algorithm/Select the choice
--   Decision/Bundles      bundles.rs: size_bundles
--
-- Domain models crates/pool-domain/src, as far as it is more than names:
--   Domain/Trace          trace.rs: TraceId
--   Domain/TieDraw        challenge_tie.rs: draw_ranks, the ranks that resolve_tie is given
--
-- Controller models crates/pool-controller/src:
--   Controller/Draw       propose.rs: the eligible challenges, their ranks and the selection between them
--
-- Client, Workflow and Gateway model parts of the services:
--   Client/Limits         crates/tig-client/src/limits.rs: ReadPolicy, its loading, its clamp
--   Client/Cache          crates/tig-client/src/cache.rs: the store of responses (get is `lookup`)
--   Client/Header         cache.rs: caching_from_header and request_is_cacheable
--   Workflow/Deadlines    crates/pool-workflow/src/deadlines.rs: Guardrails, standing, may_assign
--   Workflow/Lease        crates/pool-workflow/src/lease.rs: claim, require_fence, release over the table of
--                         leases; Lease/Steps is a step relation over the calls and the clock
--   Workflow/Intent       crates/pool-workflow/src/intent.rs: the write intents, their kinds and states;
--                         Intent/Repository has create, find, claimable and settle
--     Workflow/Siblings   precommit_siblings
--   Workflow/Attempt      crates/pool-workflow/src/attempt.rs: the ledger of attempts; Attempt/Begin has begin
--                         and begin_fenced, Attempt/Resolve resolve and reconcile, Attempt/Queries the
--                         questions; Attempt/Steps is a step relation over all of these
--   Workflow/Lifecycle    crates/pool-workflow/src/workflow.rs: the workflows and their states. Lifecycle/Table
--                         has find and transition_guarded with the constraints of the migrations,
--                         Lifecycle/Decide the checks of a transition, Lifecycle/Calls the calls that
--                         create, confirm and end a workflow, Lifecycle/Expiry expire_if_due;
--                         Lifecycle/Steps is a step relation over them
--   Workflow/Restart      crates/pool-workflow/src/restart.rs: reconcile_after_restart, which offers what the
--                         window has of a benchmark to the calls of Lifecycle/Calls, one after another;
--                         Restart/Gaps has the rows of the heights that were missed
--   Workflow/Payload      crates/pool-workflow/src/payload.rs: the submissions, and the JSON library's functions
--   Workflow/Reconcile    crates/pool-workflow/src/reconcile.rs: reconcile_precommit
--   Gateway/Network       crates/pool-domain/src/lib.rs: Network
--   Gateway/Claim         crates/tig-gateway/src/claim.rs: ConfirmedBenchmarks; Claim/Decide has decide and
--                         decide_benchmark
--   Gateway/Readiness     crates/tig-gateway/src/readiness.rs: evaluate, a function for each check
--   Gateway/WriteGate     crates/tig-gateway/src/write_gate.rs: the gate's operations; WriteGate/Steps
--                         is a step relation over the gate and the permits that its callers hold
-- The gateway evaluates its readiness, and what `evaluate` grants opens or restores the gate. It claims
-- an intent by a lease, asks the ledger for the attempts and the siblings of it, decides by them
-- whether to send, and records the attempt behind the lease's fence before it sends.
--
-- A table of the database is explicit state: the leases are a function from their key to a row, the
-- intents and the attempts are lists. A statement is a function of that state, with the CHECK
-- constraints, the unique indexes and the triggers of the migrations that bear on it; each runs
-- alone, as a transaction does, and the step relations interleave them. An error of the connection
-- is left out: a call that the database did not carry out leaves the tables as they are.
--
-- Common holds what the parts share: `Result` and `?`, byte strings in their order, `BTreeMap` as a
-- sorted association list, `sort_by`, `Iterator::max`, the functions on `str`, Euclid's algorithm as
-- the `while` loop it is, and the loop that sorts its elements into an excluded map and a kept list
-- (Sift). Tests runs the definitions, and each theorem at concrete data.
--
-- A machine integer is a native number. `checked_add` and `checked_mul` compare with the size of the
-- type and return nothing beyond it, so every overflow the source reports is reported here; an `i64`
-- is an integer. A string is the list of its code points, which are ordered as its bytes are. A
-- `HashMap` or a `BTreeMap` is a sorted association list. The loops over lists and maps are structural
-- recursion, and Euclid's loop recurs on the accessibility of its second number, so nothing runs out
-- of fuel.
-- The counter of the gate and the sums of limits.rs wrap, as in a build without overflow checks. The
-- JSON library is a parameter, and so are the digests of the payloads that are sent, the hash that
-- ranks the challenges of a draw, and which times the database can add a lease's duration to. A gap's
-- `after_height + 1` is checked, as in a build with overflow checks: where it overflows, the call has
-- no result.
--
-- Not modelled: HTTP, the SQL driver, logs, the command lines, the stand-in server of the tests and the first
-- spike, which are input and output or are replaced by the services; the sending of a claimed write and the lane
-- that runs it (transmit.rs, drive.rs, lane.rs), the snapshots, the identities, the configuration and
-- the member API, which are left for want of room.
pub mod Common
pub mod Controller
pub mod Domain
pub mod Decision
pub mod Client
pub mod Workflow
pub mod Gateway
pub mod Tests
