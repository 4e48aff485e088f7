-- ===== src/Workflow/Lifecycle/Sole.antt =====
-- crates/pool-workflow/src/workflow.rs: a benchmark has one workflow.
use tig_mining_pool_public.Common.{
  ◌≡◌, sym, ap, ◌∙◌, subst, Bool, true, false, ◌⊎◌, inl, inr, none, some, List, [], ◌∷◌, ◌++◌,
  find?, In, arith, Bool-cases,
}
use tig_mining_pool_public.Common.Bytes.{Bytes, eq_of_cmp, same_refl}
use tig_mining_pool_public.Gateway.Network.{Network, is_same}
use tig_mining_pool_public.Workflow.Attempt.{names}
use tig_mining_pool_public.Workflow.Attempt.Queries.{any}
use tig_mining_pool_public.Workflow.Lifecycle.{Workflow, Db}
use tig_mining_pool_public.Workflow.Lifecycle.Table.{
  find, is_row, updated, replace, holds, is_claimed,
}
use tig_mining_pool_public.Workflow.Lifecycle.Calls.{created}
use tig_mining_pool_public.Workflow.Lifecycle.Turns.{Turn, leaves, adds, moves, Step-Turn}
use tig_mining_pool_public.Workflow.Lifecycle.Kept.{
  find-In, is_same_refl, eq_of_same, find-replace, find-replace_other,
}
use tig_mining_pool_public.Workflow.Lifecycle.Steps.{Steps, stays, goes}

any-false :
    {A : Type 0} (p : A → Bool) (a : A) (xs : List A) → any p xs ≡ false → In a xs → p a ≡ false
any-false p a [] e i = absurd i
any-false p a (x ∷ xs) e (inl q) = rw q (ground arith)
any-false p a (x ∷ xs) e (inr i) = any-false p a xs (ground arith) i

module _ {V : Type 0} where
  -- Workflows of one network that have one benchmark are one workflow.
  abbrev pub IsSole : Db V → Type 0
  IsSole s =
      (network : Network) (i j : Bytes) (w v : Workflow V) (b : Bytes)
      → find network i s ≡ some w
      → find network j s ≡ some v
      → w.benchmark_id ≡ some b
      → v.benchmark_id ≡ some b
      → i ≡ j

  some_inj : {a b : Workflow V} → some a ≡ some b → a ≡ b
  some_inj e = cc

  replaced_cases :
      (network : Network) (id : Bytes) (w old new : Workflow V) (xs : List (Workflow V))
      → find? (is_row new.network new.workflow_id) xs ≡ some old
      → find? (is_row network id) (replace new xs) ≡ some w
      → (w ≡ new) ⊎ (find? (is_row network id) xs ≡ some w)
  replaced_cases network id w old new xs at e = elim (Bool-cases (is_row network id new)) [
    | inl r ↦
        let x : new.network ≡ network = eq_of_same new.network network (ground arith) in
        let y : new.workflow_id ≡ id = eq_of_cmp new.workflow_id id (ground arith) in
        let there : find? (is_row network id) xs ≡ some old =
          sym (λ i. find? (is_row (x i) (y i)) xs) ∙ at in
        inl (some_inj (sym e ∙ find-replace network id old new xs there x y))
    | inr r ↦ inr (sym (find-replace_other network id new xs r) ∙ e)
  ]

  appended_cases :
      (network : Network) (id : Bytes) (w new : Workflow V) (xs : List (Workflow V))
      → find? (is_row network id) (xs ++ new ∷ []) ≡ some w
      → (w ≡ new) ⊎ (find? (is_row network id) xs ≡ some w)
  appended_cases network id w new [] e = ground arith
  appended_cases network id w new (x ∷ xs) e = ground (arith, appended_cases network id w new xs)

  -- No other row has the benchmark of one that is written.
  unclaimed-Sole :
      (new v : Workflow V) (s : Db V) (b : Bytes)
      → is_claimed new s ≡ false
      → In v s.workflows
      → v.network ≡ new.network
      → new.benchmark_id ≡ some b
      → v.benchmark_id ≡ some b
      → v.workflow_id ≡ new.workflow_id
  unfolding is_claimed
  unclaimed-Sole new v s b c i n p q =
      let h : holds new v ≡ false = any-false (holds new) v s.workflows c i in
      let on : is_same v.network new.network ≡ true = rw n (is_same_refl new.network) in
      let has : names b v.benchmark_id ≡ true = rw q (same_refl b) in
      eq_of_cmp v.workflow_id new.workflow_id (ground arith)

  -- The two rows of a table in which one was written.
  replaced-Sole :
      (s : Db V) (new : Workflow V) (old : Workflow V)
      → find new.network new.workflow_id s ≡ some old
      → is_claimed new s ≡ false
      → IsSole s
      → (network : Network) (i j : Bytes) (w v : Workflow V) (b : Bytes)
      → find? (is_row network i) (replace new s.workflows) ≡ some w
      → find? (is_row network j) (replace new s.workflows) ≡ some v
      → w.benchmark_id ≡ some b
      → v.benchmark_id ≡ some b
      → (w.network ≡ network) × (w.workflow_id ≡ i)
      → (v.network ≡ network) × (v.workflow_id ≡ j)
      → i ≡ j
  unfolding find
  replaced-Sole s new old at c h network i j w v b p q x y kw kv =
      elim (replaced_cases network i w old new s.workflows at p) [
        | inl f ↦ elim (replaced_cases network j v old new s.workflows at q) [
          | inl g ↦ sym kw.1 ∙ ap (λ z. z.workflow_id) (f ∙ sym g) ∙ kv.1
          | inr g ↦
              let k =
                unclaimed-Sole new v s b c (find-In network j s v g).0
                  (kv.0 ∙ sym kw.0 ∙ ap (λ z. z.network) f) (sym (ap (λ z. z.benchmark_id) f) ∙ x)
                  y in
              sym kw.1 ∙ ap (λ z. z.workflow_id) f ∙ sym k ∙ kv.1
        ]
        | inr f ↦ elim (replaced_cases network j v old new s.workflows at q) [
          | inl g ↦
              let k =
                unclaimed-Sole new w s b c (find-In network i s w f).0
                  (kw.0 ∙ sym kv.0 ∙ ap (λ z. z.network) g) (sym (ap (λ z. z.benchmark_id) g) ∙ y)
                  x in
              sym kw.1 ∙ k ∙ sym (ap (λ z. z.workflow_id) g) ∙ kv.1
          | inr g ↦ h network i j w v b f g x y
        ]
      ]

  Turn-IsSole : (s t : Db V) → Turn s t → IsSole s → IsSole t
  unfolding find updated
  Turn-IsSole s t (leaves e) h = λ network i j w v b p q.
      h network i j w v b (sym (ap (find? (is_row network i)) e) ∙ p)
        (sym (ap (find? (is_row network j)) e) ∙ q)
  Turn-IsSole s t (adds n k owner owner_id from absent e) h = λ network i j w v b p q x y.
      let new = created n k owner owner_id from in
      let at_w =
        appended_cases network i w new s.workflows (sym (ap (find? (is_row network i)) e) ∙ p) in
      let at_v =
        appended_cases network j v new s.workflows (sym (ap (find? (is_row network j)) e) ∙ q) in
      elim at_w [
        | inl f ↦ absurd (no_benchmark (sym (ap (λ z. z.benchmark_id) f) ∙ x))
        | inr f ↦ elim at_v [
          | inl g ↦ absurd (no_benchmark (sym (ap (λ z. z.benchmark_id) g) ∙ y))
          | inr g ↦ h network i j w v b f g x y
        ]
      ]
    where
      no_benchmark : {b : Bytes} → none ≡ some b → ⊥
      no_benchmark e = cc
  Turn-IsSole s t (moves n k old to f at m a c u e) h = λ network i j w v b p q x y.
      let (_, kn, ki) = find-In n k s old at in
      let there : find old.network old.workflow_id s ≡ some old =
        subst (λ z. find old.network z s ≡ some old) (sym ki)
          (subst (λ z. find z k s ≡ some old) (sym kn) at) in
      replaced-Sole s (updated to f old) old there u h network i j w v b
        (sym (ap (find? (is_row network i)) e) ∙ p) (sym (ap (find? (is_row network j)) e) ∙ q) x y
        ((find-In network i t w p).1, (find-In network i t w p).2)
        ((find-In network j t v q).1, (find-In network j t v q).2)

  -- Whatever is called, no two workflows of a network come to own one benchmark.
  pub Steps-IsSole : (s t : Db V) → Steps s t → IsSole s → IsSole t
  Steps-IsSole s t (stays u) h = h
  Steps-IsSole s t (goes a b c x xs) h = Steps-IsSole b c xs (Turn-IsSole a b (Step-Turn a b x) h)
