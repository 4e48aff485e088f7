-- ===== src/Workflow/Attempt/Resolve.antt =====
-- crates/pool-workflow/src/attempt.rs: the response is recorded, and an ambiguity is settled.
use tig_mining_pool_public.Common.{
  Bool, true, ◌&&◌, leb, if◌then◌else◌, Option, none, some, List, map, find?, length, Result, ok,
  err,
}
use tig_mining_pool_public.Common.Bytes.{Bytes, same}
use tig_mining_pool_public.Common.Int.{ℤ}
use tig_mining_pool_public.Workflow.Intent.{prepared, outcome_unknown, is_state, IntentRow}
use tig_mining_pool_public.Workflow.Attempt.{
  AttemptOutcome, accepted, rejected, ambiguous, AttemptRow, Ledger, AttemptError, unavailable,
  already_resolved, not_settled, not_ambiguous, is_null, is_ambiguous,
}

-- `attempt_id = $1 AND outcome IS NULL`
abbrev pub is_open : Bytes → AttemptRow → Bool
is_open attempt_id row = same row.attempt_id attempt_id && is_null row.outcome

-- `attempt_id = $1 AND outcome = 'AMBIGUOUS'`
abbrev pub is_unsettled : Bytes → AttemptRow → Bool
is_unsettled attempt_id row = same row.attempt_id attempt_id && is_ambiguous row.outcome

-- An UPDATE of the rows that its condition selects.
abbrev pub update {ℓ} : {A : Type ℓ} → (A → Bool) → (A → A) → List A → List A
update p f = map (λ row. if p row then f row else row)

abbrev pub fits : Option Bytes → Bool
fits none = true
fits (some detail) = leb (length detail) 200

abbrev pub answered : AttemptOutcome → Option ℤ → Option Bytes → AttemptRow → AttemptRow
answered outcome http_status detail row = record row {
  outcome = some outcome;
  http_status = http_status;
  detail = detail;
}

abbrev pub is_prepared_of : Bytes → IntentRow → Bool
is_prepared_of intent_id row =
    same row.intent.intent_id intent_id && is_state row.intent.state prepared

abbrev pub unknown : IntentRow → IntentRow
unknown row = record row { intent = record row.intent { state = outcome_unknown } }

abbrev pub mark_unknown : AttemptOutcome → Bytes → List IntentRow → List IntentRow
mark_unknown accepted intent_id rows = rows
mark_unknown rejected intent_id rows = rows
mark_unknown ambiguous intent_id rows = update (is_prepared_of intent_id) unknown rows

abbrev pub resolve_row :
    Bytes
    → AttemptOutcome
    → Option ℤ
    → Option Bytes
    → Option AttemptRow
    → Ledger
    → Ledger × Result {0, 0} AttemptError Unit
resolve_row attempt_id outcome http_status detail none l = (l, err (already_resolved attempt_id))
resolve_row attempt_id outcome http_status detail (some row) l =
    if fits detail
    then (
      record l {
        attempts = update (is_open attempt_id) (answered outcome http_status detail) l.attempts;
        intents = mark_unknown outcome row.intent_id l.intents;
      },
      ok tt,
    )
    else (l, err unavailable)

-- `resolve`
unfoldable pub resolve :
    Bytes
    → AttemptOutcome
    → Option ℤ
    → Option Bytes
    → Ledger
    → Ledger × Result {0, 0} AttemptError Unit
resolve attempt_id outcome http_status detail l =
    resolve_row attempt_id outcome http_status detail (find? (is_open attempt_id) l.attempts) l

abbrev pub settle : AttemptOutcome → AttemptRow → AttemptRow
settle outcome row = record row { outcome = some outcome; reconciled = true }

abbrev pub reconcile_row :
    Bytes → AttemptOutcome → Option AttemptRow → Ledger → Ledger × Result {0, 0} AttemptError Unit
reconcile_row attempt_id settled none l = (l, err (not_ambiguous attempt_id))
reconcile_row attempt_id settled (some row) l =
    (record l { attempts = update (is_unsettled attempt_id) (settle settled) l.attempts }, ok tt)

-- `reconcile`
unfoldable pub reconcile :
    Bytes → AttemptOutcome → Ledger → Ledger × Result {0, 0} AttemptError Unit
reconcile attempt_id settled l =
    if is_ambiguous (some settled)
    then (l, err (not_settled attempt_id))
    else reconcile_row attempt_id settled (find? (is_unsettled attempt_id) l.attempts) l
