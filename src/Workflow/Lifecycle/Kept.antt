-- ===== src/Workflow/Lifecycle/Kept.antt =====
-- crates/pool-workflow/src/workflow.rs: how what holds of a row, or of the row with a key, is kept
-- by every call.
use tig_mining_pool_public.Common.{
  ◌≡◌, refl, sym, ap, ◌∙◌, subst, Bool, true, false, ◌&&◌, Option, none, some, List, [], ◌∷◌, ◌++◌,
  find?, All, In, All-In, arith, find?_found, Bool-cases, Option-cases, if◌then◌else◌, inl, inr,
}
use tig_mining_pool_public.Common.Bytes.{Bytes, same, eq_of_cmp, same_refl}
use tig_mining_pool_public.Common.Int.{ℤ}
use tig_mining_pool_public.Gateway.Network.{Network, testnet, mainnet, is_same}
use tig_mining_pool_public.Workflow.Lifecycle.{Owner, WorkflowState, Workflow, Fields, Db}
use tig_mining_pool_public.Workflow.Lifecycle.Table.{find, is_row, updated, replace}
use tig_mining_pool_public.Workflow.Lifecycle.Calls.{created}
use tig_mining_pool_public.Workflow.Lifecycle.Moves.{Move}
use tig_mining_pool_public.Workflow.Lifecycle.Turns.{Turn, leaves, adds, moves, Step-Turn}
use tig_mining_pool_public.Workflow.Lifecycle.Steps.{Steps, stays, goes}

pub is_same_refl : (n : Network) → is_same n n ≡ true
is_same_refl testnet = refl
is_same_refl mainnet = refl

pub eq_of_same : (n m : Network) → is_same n m ≡ true → n ≡ m
eq_of_same n m h = ground arith

module _ {V : Type 0} where
  All-replace {κ} :
      (P : Workflow V → Type κ) (w : Workflow V) (xs : List (Workflow V))
      → P w
      → All P xs
      → All P (replace w xs)
  unfolding replace
  All-replace P w [] hw h = tt
  All-replace P w (x ∷ xs) hw h = elim (Bool-cases (is_row w.network w.workflow_id x)) [
    | inl q ↦ rw q (hw, h.1)
    | inr q ↦ rw q (h.0, All-replace P w xs hw h.1)
  ]

  All-append {κ} :
      (P : Workflow V → Type κ) (w : Workflow V) (xs : List (Workflow V))
      → All P xs
      → P w
      → All P (xs ++ w ∷ [])
  All-append P w [] h hw = (hw, tt)
  All-append P w (x ∷ xs) h hw = (h.0, All-append P w xs h.1 hw)

  pub find-In :
      (network : Network) (id : Bytes) (s : Db V) (w : Workflow V)
      → find network id s ≡ some w
      → In w s.workflows × (w.network ≡ network) × (w.workflow_id ≡ id)
  unfolding find
  find-In network id s w e =
      let (i, q) = find?_found (is_row network id) w s.workflows e in
      (i, eq_of_same w.network network (ground arith), eq_of_cmp w.workflow_id id (ground arith))

  -- A property of a new row that a move keeps is kept for all rows.
  module _ {κ} (P : Workflow V → Type κ)
      (new : (network : Network) (id : Bytes) (owner : Owner) (owner_id : Bytes) (from : ℤ)
        → P (created network id owner owner_id from))
      (kept : (w : Workflow V) (to : WorkflowState) (f : Fields V)
        → P w
        → Move w to f
        → P (updated to f w)) where
    Turn-All : (s t : Db V) → Turn s t → All P s.workflows → All P t.workflows
    Turn-All s t (leaves e) h = subst (All P) (sym e) h
    Turn-All s t (adds network id owner owner_id from n e) h =
        subst (All P) (sym e) (All-append P _ s.workflows h (new network id owner owner_id from))
    Turn-All s t (moves network id w to f q m a b c e) h =
        let (i, _, _) = find-In network id s w q in
        subst (All P) (sym e) (
          All-replace P (updated to f w) s.workflows (kept w to f (All-In P w s.workflows h i) m) h)

    pub Steps-All : (s t : Db V) → Steps s t → All P s.workflows → All P t.workflows
    Steps-All s t (stays u) h = h
    Steps-All s t (goes a b c x xs) h = Steps-All b c xs (Turn-All a b (Step-Turn a b x) h)

  pub find-replace :
      (network : Network) (id : Bytes) (w new : Workflow V) (xs : List (Workflow V))
      → find? (is_row network id) xs ≡ some w
      → new.network ≡ network
      → new.workflow_id ≡ id
      → find? (is_row network id) (replace new xs) ≡ some new
  unfolding replace
  find-replace network id w new [] e p q = cc
  find-replace network id w new (x ∷ xs) e p q =
      let own : is_row network id new ≡ true =
        rw (p, q) (rw (is_same_refl network) (same_refl id)) in
      let key : is_row new.network new.workflow_id x ≡ is_row network id x = rw (p, q) refl in
      elim (Bool-cases (is_row network id x)) [
        | inl t ↦ rw (key, t) (rw own refl)
        | inr f ↦ rw (key, f) (rw f (find-replace network id w new xs (ground arith) p q))
      ]

  same_row :
      (network : Network) (id : Bytes) (x new : Workflow V)
      → is_row new.network new.workflow_id x ≡ true
      → is_row network id x ≡ is_row network id new
  same_row network id x new t =
      let a : x.network ≡ new.network = eq_of_same x.network new.network (ground arith) in
      let b : x.workflow_id ≡ new.workflow_id =
        eq_of_cmp x.workflow_id new.workflow_id (ground arith) in
      λ i. is_same (a i) network && same (b i) id

  pub find-replace_other :
      (network : Network) (id : Bytes) (new : Workflow V) (xs : List (Workflow V))
      → is_row network id new ≡ false
      → find? (is_row network id) (replace new xs) ≡ find? (is_row network id) xs
  unfolding replace
  find-replace_other network id new [] n = refl
  find-replace_other network id new (x ∷ xs) n =
      elim (Bool-cases (is_row new.network new.workflow_id x)) [
        | inl t ↦
            let f : is_row network id x ≡ false = same_row network id x new t ∙ n in
            rw t (rw (n, f) refl)
        | inr f ↦ rw f (rest (is_row network id x) (find-replace_other network id new xs n))
      ]
    where
      rest :
          (b : Bool) {o p : Option (Workflow V)}
          → o ≡ p
          → (if b then some x else o) ≡ (if b then some x else p)
      rest b e = λ i. if b then some x else e i

  pub find-append :
      (network : Network) (id : Bytes) (w new : Workflow V) (xs : List (Workflow V))
      → find? (is_row network id) xs ≡ some w
      → find? (is_row network id) (xs ++ new ∷ []) ≡ some w
  find-append network id w new [] e = cc
  find-append network id w new (x ∷ xs) e = ground (arith, find-append network id w new xs)

  -- What a turn does to the row with a key: nothing, or it is new, or it is moved.
  pub data Turned (network : Network) (id : Bytes) (s t : Db V) : Type 0 where
    same_found : find network id t ≡ find network id s → Turned network id s t
    new_found : find network id s ≡ none → Turned network id s t
    move_found :
        (w : Workflow V) (to : WorkflowState) (f : Fields V)
        → find network id s ≡ some w
        → Move w to f
        → find network id t ≡ some (updated to f w)
        → Turned network id s t

  pub Turn-Turned : (network : Network) (id : Bytes) (s t : Db V) → Turn s t → Turned network id s t
  unfolding find updated
  Turn-Turned network id s t (leaves e) = same_found (ap (find? (is_row network id)) e)
  Turn-Turned network id s t (adds n i owner owner_id from absent e) =
      elim (Option-cases (find network id s)) [
        | inl q ↦ new_found q
        | inr (w, q) ↦
            same_found
              (ap (find? (is_row network id)) e ∙ find-append network id w _ s.workflows q ∙ sym q)
      ]
  Turn-Turned network id s t (moves n i w to f q m a b c e) =
      let (_, key, own) = find-In n i s w q in
      elim (Bool-cases (is_row network id (updated to f w))) [
        | inl r ↦
            let x : n ≡ network = sym key ∙ eq_of_same w.network network (ground arith) in
            let y : i ≡ id = sym own ∙ eq_of_cmp w.workflow_id id (ground arith) in
            let at : find network id s ≡ some w =
              subst (λ j. find network j s ≡ some w) y (subst (λ z. find z i s ≡ some w) x q) in
            move_found w to f at m (
              ap (find? (is_row network id)) e
              ∙ find-replace network id w (updated to f w) s.workflows at (key ∙ x) (own ∙ y))
        | inr r ↦ same_found (
            ap (find? (is_row network id)) e
            ∙ find-replace_other network id (updated to f w) s.workflows r)
      ]
