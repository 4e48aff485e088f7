-- ===== src/Gateway/Claim/Commitment.antt =====
-- crates/tig-gateway/src/claim.rs: when a benchmark's commitment is sent.
use tig_mining_pool_public.Common.{
  ◌≡◌, ◌≢◌, ◌↔◌, ◌∙◌, refl, sym, ap, subst, Bool, true, false, ◌||◌, Bool-cases, inl, inr, Option,
  none, some, List, [], ◌∷◌, arith,
}
use tig_mining_pool_public.Common.Bytes.{Bytes, same, cmp-eq_iff, same_refl}
use tig_mining_pool_public.Workflow.Intent.{WriteIntent, prepared, benchmark, is_kind}
use tig_mining_pool_public.Workflow.Attempt.{WriteAttempt, is_unresolved}
use tig_mining_pool_public.Workflow.Payload.{BenchmarkSubmission}
use tig_mining_pool_public.Gateway.Claim.{
  transmit, OwningWorkflow, any, every, was_accepted, was_rejected,
}
use tig_mining_pool_public.Gateway.Claim.Decide.{decide_named, decide_benchmark}

abbrev pub is_confirmed : Bytes → List Bytes → Bool
is_confirmed id confirmed = any (λ c. same c id) confirmed

-- What sending a commitment is right for.
pub record IsDue (digest : BenchmarkSubmission → Bytes) (intent : WriteIntent)
    (attempts : List WriteAttempt) (owning : OwningWorkflow) (confirmed : List Bytes)
    (submission : Option BenchmarkSubmission) : Type 0 where
  pub kind : intent.write_kind ≡ benchmark
  pub unattempted : attempts ≡ []
  pub awaits : intent.state ≡ prepared
  pub live : owning.is_terminal ≡ false
  pub built :
      (s : BenchmarkSubmission) × (submission ≡ some s)
      × (intent.benchmark_id ≡ some s.benchmark_id)
      × (digest s ≡ intent.payload_digest)
      × (is_confirmed s.benchmark_id confirmed ≡ false)

outcome_rejected :
    (a : WriteAttempt) → is_unresolved a.outcome || was_accepted a ≡ false → was_rejected a ≡ true
outcome_rejected a h = ground arith

all_rejected :
    (xs : List WriteAttempt)
    → any (λ a. is_unresolved a.outcome || was_accepted a) xs ≡ false
    → every was_rejected xs ≡ true
all_rejected [] h = refl
all_rejected (a ∷ xs) h = ground (arith, outcome_rejected a, all_rejected xs)

module _ (digest : BenchmarkSubmission → Bytes) where
  attempted_named :
      (intent : WriteIntent) (a : WriteAttempt) (rest : List WriteAttempt) (owning : OwningWorkflow)
      (confirmed : List Bytes) (s : Option BenchmarkSubmission) (id : Option Bytes)
      → decide_named digest intent (a ∷ rest) owning confirmed s id ≢ transmit
  attempted_named intent a rest owning confirmed s none e = cc
  attempted_named intent a rest owning confirmed s (some id) e =
      ground (arith, all_rejected (a ∷ rest))

  named :
      (intent : WriteIntent) (owning : OwningWorkflow) (confirmed : List Bytes)
      (o : Option BenchmarkSubmission) (i : Option Bytes)
      → intent.benchmark_id ≡ i
      → intent.write_kind ≡ benchmark
      → decide_named digest intent [] owning confirmed o i ≡ transmit
      → IsDue digest intent [] owning confirmed o
  named intent owning confirmed o none q k e = cc
  named intent owning confirmed none (some id) q k e = absurd (ground arith)
  named intent owning confirmed (some s) (some id) q k e =
      let at = (cmp-eq_iff s.benchmark_id id).0 (ground arith) in
      let d = (cmp-eq_iff (digest s) intent.payload_digest).0 (ground arith) in
      let fresh : is_confirmed id confirmed ≡ false = ground arith in
      record {
        kind = k;
        unattempted = refl;
        awaits = ground arith;
        live = ground arith;
        built = (
          s,
          refl,
          q ∙ ap some (sym at),
          d,
          subst (λ x. is_confirmed x confirmed ≡ false) (sym at) fresh,
        );
      }

  sent :
      (intent : WriteIntent) (attempts : List WriteAttempt) (owning : OwningWorkflow)
      (confirmed : List Bytes) (o : Option BenchmarkSubmission)
      → intent.write_kind ≡ benchmark
      → decide_named digest intent attempts owning confirmed o intent.benchmark_id ≡ transmit
      → IsDue digest intent attempts owning confirmed o
  sent intent [] owning confirmed o k e =
      named intent owning confirmed o intent.benchmark_id refl k e
  sent intent (a ∷ rest) owning confirmed o k e =
      absurd (attempted_named intent a rest owning confirmed o intent.benchmark_id e)

  -- A commitment is sent exactly where its intent is prepared, names the benchmark of the body that
  -- was built and records that body's digest, no attempt was made for it, its workflow has not ended,
  -- and the read does not confirm the benchmark.
  pub decide_benchmark-transmit_iff :
      (intent : WriteIntent) (attempts : List WriteAttempt) (owning : OwningWorkflow)
      (confirmed : List Bytes) (o : Option BenchmarkSubmission)
      → (decide_benchmark digest intent attempts owning confirmed o ≡ transmit)
        ↔ IsDue digest intent attempts owning confirmed o
  unfolding decide_benchmark
  decide_benchmark-transmit_iff intent attempts owning confirmed o = (
    λ e. elim (Bool-cases (is_kind intent.write_kind benchmark)) [
      | inl q ↦ sent intent attempts owning confirmed o (ground arith) (rw q at e)
      | inr q ↦ let k = rw q at e in cc
    ],
    λ h.
        let (s, a, b, d, f) = h.built in
        rw
          (
            h.unattempted,
            a,
            b,
            h.kind,
            h.awaits,
            h.live,
            f,
            same_refl s.benchmark_id,
            d,
            same_refl intent.payload_digest,
          )
          refl,
  )
