-- ===== src/Tests/Lifecycles.antt =====
-- A workflow that TIG confirms a precommit of and then condemns, and one that is swept.
use tig_mining_pool_public.Common.{
  ℕ, ◌≡◌, refl, false, none, some, true, [], ◌∷◌, All, ok, err, ap, sym, subst, ◌<◌,
}
use tig_mining_pool_public.Common.Bytes.{Bytes, codes, cmp}
use tig_mining_pool_public.Common.Int.{pos}
use tig_mining_pool_public.Common.Sort.{sort_by}
use tig_mining_pool_public.Gateway.Network.{testnet}
use tig_mining_pool_public.Workflow.Attempt.{Ledger}
use tig_mining_pool_public.Workflow.Attempt.Queries.{unsettled_write_exists}
use tig_mining_pool_public.Workflow.Deadlines.{Guardrails, band, age_of}
use tig_mining_pool_public.Workflow.Lifecycle.{
  pool_bootstrap, Workflow, ConfirmedPrecommit, ConfirmedFraud, fraudulent, precommit_confirmed,
  decided, Db, stale_revision, member_fault_not_available,
}
use tig_mining_pool_public.Workflow.Lifecycle.Table.{
  find, is_valid, may_follow, is_claimed, transition_guarded, commit,
}
use tig_mining_pool_public.Workflow.Lifecycle.Decide.{precommit_fields, fraud_fields}
use tig_mining_pool_public.Workflow.Lifecycle.Calls.{create, confirm_precommit, confirm_fraud, fail}
use tig_mining_pool_public.Workflow.Lifecycle.Expiry.{expire_if_due}
use tig_mining_pool_public.Workflow.Lifecycle.Steps.{
  Step, Steps, stays, goes, creates, confirms_precommit, confirms_fraud,
}
use tig_mining_pool_public.Workflow.Lifecycle.Sound.{IsSound, Steps-IsSound}
use tig_mining_pool_public.Workflow.Lifecycle.Course.{Follows, Steps-Follows}
use tig_mining_pool_public.Workflow.Lifecycle.Final.{ended-Stays, transition_guarded-Once}
use tig_mining_pool_public.Workflow.Lifecycle.Faultless.{IsFaultless, Steps-IsFaultless}
use tig_mining_pool_public.Workflow.Lifecycle.Sole.{IsSole, Steps-IsSole}
use tig_mining_pool_public.Workflow.Lifecycle.Swept.{Sweeps, expired_row, expire_if_due-Sweeps}

abbrev ledger : Ledger
ledger = record {
  leases = record {
    now = 0;
    in_range = λ now seconds. true;
    has_workflow = λ network id. false;
    rows = λ key. none;
  };
  intents = [];
  attempts = [];
}

abbrev nothing : Db Bytes
nothing = record { ledger = ledger; workflows = []; decisions = [] }

abbrev pub work : Bytes
work = codes "w1"

abbrev begun : Workflow Bytes
begun = record {
  workflow_id = work;
  network = testnet;
  state = decided;
  revision = 1;
  owner = pool_bootstrap;
  owner_id = codes "pool-bootstrap";
  benchmark_id = none;
  unverified_from_block = pos 100;
  unverified_to_block = none;
  confirmed_track_id = none;
  confirmed_settings = none;
  precommit_confirmed_block = none;
  block_started = none;
  confirmed_num_nonces = none;
  terminal_reason = none;
}

abbrev pub evidence : ConfirmedPrecommit Bytes
evidence = record {
  benchmark_id = codes "b1";
  num_nonces = some (pos 40);
  num_bundles = some (pos 4);
  block_confirmed = pos 102;
  block_started = pos 101;
  track_id = codes "t1";
  settings = codes "{}";
}

abbrev fraud : ConfirmedFraud
fraud = record { benchmark_id = codes "b1"; block_confirmed = pos 140 }

abbrev one : Db Bytes
one = record nothing { workflows = begun ∷ [] }

abbrev pub obtained : Workflow Bytes
obtained = record begun {
  state = precommit_confirmed;
  revision = 2;
  benchmark_id = some (codes "b1");
  confirmed_track_id = some (codes "t1");
  confirmed_settings = some (codes "{}");
  precommit_confirmed_block = some (pos 102);
  block_started = some (pos 101);
  confirmed_num_nonces = some (pos 40);
}

abbrev pub two : Db Bytes
two = record nothing { workflows = obtained ∷ [] }

abbrev condemned : Workflow Bytes
condemned = record obtained {
  state = fraudulent;
  revision = 3;
  unverified_to_block = some (pos 140);
  terminal_reason = some (codes "TIG confirmed a fraud entry");
}

abbrev three : Db Bytes
three = record nothing { workflows = condemned ∷ [] }

creates_one :
    create testnet work pool_bootstrap (codes "pool-bootstrap") (pos 100) nothing ≡ (one, ok begun)
unfolding create is_valid find cmp
creates_one = refl

obtains_two : confirm_precommit testnet work 1 evidence one ≡ (two, ok obtained)
unfolding confirm_precommit is_valid may_follow is_claimed cmp
obtains_two = refl

condemns_three : confirm_fraud testnet work 2 fraud two ≡ (three, ok condemned)
unfolding confirm_fraud is_valid may_follow is_claimed cmp
condemns_three = refl

rejects_member :
    fail testnet work 1 (codes "the Member was late") (pos 120) one
    ≡ (one, err (member_fault_not_available (codes "the Member was late")))
unfolding fail
rejects_member = refl

first-Step : Step nothing one
first-Step =
    subst (Step nothing) (ap (λ x. x.0) creates_one)
      (creates testnet work pool_bootstrap (codes "pool-bootstrap") (pos 100) nothing)

second-Step : Step one two
second-Step =
    subst (Step one) (ap (λ x. x.0) obtains_two) (confirms_precommit testnet work 1 evidence one)

third-Step : Step two three
third-Step =
    subst (Step two) (ap (λ x. x.0) condemns_three) (confirms_fraud testnet work 2 fraud two)

onward : Steps two three
onward = goes two three three third-Step (stays three)

course : Steps nothing three
course = goes nothing one three first-Step (goes one two three second-Step onward)

Steps-IsSound_example : All IsSound three.workflows
Steps-IsSound_example = Steps-IsSound nothing three course tt

two-IsSound : All IsSound two.workflows
two-IsSound =
    Steps-IsSound nothing two
      (goes nothing one two first-Step (goes one two two second-Step (stays two))) tt

pub finds_two : find testnet work two ≡ some obtained
unfolding find cmp
finds_two = refl

finds_three : find testnet work three ≡ some condemned
unfolding find cmp
finds_three = refl

Steps-Follows_example :
    (new : Workflow Bytes) × (find testnet work three ≡ some new)
    × ((n : ℕ) × Follows obtained new n)
Steps-Follows_example = Steps-Follows two three testnet work obtained onward two-IsSound finds_two

-- A benchmark that TIG confirms too late.
abbrev late : ConfirmedPrecommit Bytes
late = record evidence { benchmark_id = codes "b2" }

last-Step : Step three (confirm_precommit testnet work 3 late three).0
last-Step = confirms_precommit testnet work 3 late three

ended-Stays_example :
    find testnet work (confirm_precommit testnet work 3 late three).0 ≡ some condemned
ended-Stays_example =
    ended-Stays three (confirm_precommit testnet work 3 late three).0 testnet work condemned
      (goes three _ _ last-Step (stays (confirm_precommit testnet work 3 late three).0)) finds_three
      refl

obtained_once :
    transition_guarded testnet work 1 precommit_confirmed false
      (precommit_fields testnet work evidence)
      one
    ≡ ok obtained
unfolding transition_guarded precommit_fields is_valid may_follow is_claimed cmp
obtained_once = refl

commits_two : (commit one (ok obtained)).0 ≡ two
unfolding commit cmp
commits_two = refl

transition_guarded-Once_example :
    (found : ℕ) × (transition_guarded testnet work 1 fraudulent false
        (fraud_fields testnet work fraud)
        three
      ≡ err (stale_revision testnet work 1 found))
    × (1 < found)
transition_guarded-Once_example =
    transition_guarded-Once one three testnet work 1 precommit_confirmed false
      (precommit_fields testnet work evidence) obtained obtained_once
      (subst (λ x. Steps x three) (sym commits_two) onward) fraudulent false
      (fraud_fields testnet work fraud)

Steps-IsFaultless_example : All IsFaultless three.workflows
Steps-IsFaultless_example = Steps-IsFaultless nothing three course tt

no_workflow : IsSole nothing
unfolding find
no_workflow network i j w v b p q x y = cc

Steps-IsSole_example : IsSole three
Steps-IsSole_example = Steps-IsSole nothing three course no_workflow

abbrev guardrails : Guardrails
guardrails = record {
  max_assignment_age_blocks = 60;
  package_due_age_blocks = 110;
  workflow_expiry_age_blocks = 120;
  proof_reserve_blocks = 10;
}

finds_one : find testnet work one ≡ some begun
unfolding find cmp
finds_one = refl

sweeps_at_120 :
    (expire_if_due guardrails testnet work (pos 220) one).1
    ≡ ok (some (expired_row guardrails testnet work (pos 220) begun))
unfolding expire_if_due cmp age_of band is_valid may_follow is_claimed sort_by
    unsettled_write_exists
sweeps_at_120 = refl

expire_if_due-Sweeps_example :
    Sweeps guardrails testnet work
      (pos 220)
      begun
      one
      (expire_if_due guardrails testnet work (pos 220) one)
expire_if_due-Sweeps_example =
    expire_if_due-Sweeps guardrails testnet work (pos 220) begun one finds_one
