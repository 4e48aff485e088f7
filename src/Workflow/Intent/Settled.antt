-- ===== src/Workflow/Intent/Settled.antt =====
-- crates/pool-workflow/src/intent.rs: an intent settles once.
use tig_mining_pool_public.Common.{
  ℕ, suc, ◌≤◌, ◌≡◌, ◌≢◌, ◌↔◌, inl, inr, refl, sym, ap, ◌∙◌, true, false, Bool-cases, Option-cases,
  if◌then◌else◌, Option, none, some, List, [], ◌∷◌, map, keep, find?, length, ok, err, ok_inj,
  arith,
}
use tig_mining_pool_public.Common.Bytes.{Bytes}
use tig_mining_pool_public.Workflow.Intent.{
  IntentState, WriteIntent, IntentRow, is_state, is_claimable,
}
use tig_mining_pool_public.Workflow.Intent.Repository.{
  already_settled, SettledOutcome, is_confirmed, is_rejected, as_state, has_id, can_settle,
  in_state, settle, settle_recorded,
}

is_state_iff : (a b : IntentState) → (is_state a b ≡ true) ↔ (a ≡ b)
is_state_iff a b = ground arith

settled-IsFinal : (o : SettledOutcome) → is_claimable (as_state o) ≡ false
settled-IsFinal (is_confirmed id) = refl
settled-IsFinal is_rejected = refl

abbrev settled_rows : Bytes → IntentState → List IntentRow → List IntentRow
settled_rows id st = map (λ r. if can_settle id r then in_state st r else r)

-- The identifier is a primary key.
abbrev pub IsKey : Bytes → List IntentRow → Type 0
IsKey id rows = length (keep (has_id id) rows) ≤ 1

alone : (n : ℕ) → suc n ≤ 1 → n ≡ 0
alone n h = omega arith

some_inj : {a b : IntentRow} → ◌≡◌ {A = Option IntentRow} (some a) (some b) → a ≡ b
some_inj e = cc

not_some : {a : IntentRow} → ◌≡◌ {A = Option IntentRow} none (some a) → ⊥
not_some e = cc

module _ (id : Bytes) (st : IntentState) (final : is_claimable st ≡ false) where
  none_settles :
      (rows : List IntentRow)
      → length (keep (has_id id) rows) ≡ 0
      → (find? (can_settle id) (settled_rows id st rows) ≡ none)
        × (find? (can_settle id) rows ≡ none)
  none_settles [] h = (refl, refl)
  none_settles (r ∷ rows) h = ground (arith, none_settles rows)

  settles :
      (rows : List IntentRow) (row : IntentRow)
      → IsKey id rows
      → find? (can_settle id) rows ≡ some row
      → (find? (can_settle id) (settled_rows id st rows) ≡ none)
        × (find? (has_id id) (settled_rows id st rows) ≡ some (in_state st row))
  settles [] row h e = cc
  settles (r ∷ rows) row h e = elim (Bool-cases (has_id id r)) [
    | inr q ↦ rw q (rw q (settles rows row (rw q at h) (rw q at e)))
    | inl q ↦ elim (Bool-cases (is_claimable r.intent.state)) [
      | inl c ↦
          let (n, _) = none_settles rows (alone (length (keep (has_id id) rows)) (rw q at h)) in
          rw (q, c) (rw (q, final) (n, ap (λ x. some (in_state st x)) (some_inj (rw (q, c) at e))))
      | inr c ↦
          let (_, n) = none_settles rows (alone (length (keep (has_id id) rows)) (rw q at h)) in
          absurd (not_some (sym n ∙ (rw (q, c) at e)))
    ]
  ]

-- What a settlement leaves.
abbrev Leaves : Bytes → SettledOutcome → WriteIntent → List IntentRow → Type 0
Leaves id o i rows =
    (find? (can_settle id) rows ≡ none)
    × ((row : IntentRow) × (find? (has_id id) rows ≡ some row) × (row.intent ≡ i))
    × (i.state ≡ as_state o)

settle-Leaves :
    (id : Bytes) (o : SettledOutcome) (rows : List IntentRow) (i : WriteIntent)
    → IsKey id rows
    → (settle id o rows).1 ≡ ok i
    → Leaves id o i (settle id o rows).0
unfolding settle
settle-Leaves id o rows i u e = elim (Option-cases (find? (can_settle id) rows)) [
  | inr (row, q) ↦
      let k = ok_inj (rw q at e) in
      let (a, b) = settles id (as_state o) (settled-IsFinal o) rows row u q in
      rw q (a, (in_state (as_state o) row, b, k), sym (ap (λ x. x.state) k))
  | inl q ↦
      let (there, at) = recorded (find? (has_id id) rows) refl (rw q at e) in rw q (q, there, at)
]
  where
    recorded :
        (f : Option IntentRow)
        → find? (has_id id) rows ≡ f
        → settle_recorded id (as_state o) f ≡ ok i
        → ((row : IntentRow) × (find? (has_id id) rows ≡ some row) × (row.intent ≡ i))
          × (i.state ≡ as_state o)
    recorded none q e = cc
    recorded (some row) q e = elim (Bool-cases (is_state row.intent.state (as_state o))) [
      | inl s ↦
          let k = ok_inj (rw s at e) in
          (
            (row, q, k),
            sym (ap (λ x. x.state) k) ∙ (is_state_iff row.intent.state (as_state o)).0 s,
          )
      | inr s ↦ let k = rw s at e in cc
    ]

module _ (id : Bytes) (o other : SettledOutcome) (i : WriteIntent) (rows : List IntentRow)
    (left : Leaves id o i rows) where
  same_again : as_state other ≡ as_state o → settle id other rows ≡ (rows, ok i)
  unfolding settle
  same_again e =
      let (n, (row, q, k), at) = left in
      let s : is_state row.intent.state (as_state other) ≡ true =
        (is_state_iff row.intent.state (as_state other)).1 (ap (λ x. x.state) k ∙ at ∙ sym e) in
      rw (n, q, s) (λ j. (rows, ok (k j)))

  refuses :
      as_state other ≢ as_state o
      → settle id other rows ≡ (rows, err (already_settled id (as_state o) (as_state other)))
  unfolding settle
  refuses e =
      let (n, (row, q, k), at) = left in
      let was = ap (λ x. x.state) k ∙ at in
      let s : is_state row.intent.state (as_state other) ≡ false =
        ground (arith, is_state_iff row.intent.state (as_state other)) in
      rw (n, q, s) (λ j. (rows, err (already_settled id (was j) (as_state other))))

-- Where the identifier is a key, an intent that is settled has the outcome's state, and settles no
-- second time: settling it again alike gives the same intent, settling it otherwise is refused with
-- both states, and neither changes a row.
pub settle-Once :
    (id : Bytes) (o alike otherwise : SettledOutcome) (rows : List IntentRow) (i : WriteIntent)
    → IsKey id rows
    → (settle id o rows).1 ≡ ok i
    → as_state alike ≡ as_state o
    → as_state otherwise ≢ as_state o
    → (i.state ≡ as_state o)
      × (settle id alike (settle id o rows).0 ≡ ((settle id o rows).0, ok i))
      × (settle id otherwise (settle id o rows).0
          ≡ ((settle id o rows).0, err (already_settled id (as_state o) (as_state otherwise))))
settle-Once id o alike otherwise rows i u e a n =
    let left = settle-Leaves id o rows i u e in
    let (_, _, at) = left in
    (
      at,
      same_again id o alike i (settle id o rows).0 left a,
      refuses id o otherwise i (settle id o rows).0 left n,
    )
