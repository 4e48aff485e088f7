-- ===== src/Common/Max.antt =====
-- `Iterator::max`, for a comparison that tells equal elements only from the same.
use Prim.Native.Nat.{Ordering}
use mathlib.Core.Path.{◌≡◌, refl, sym, subst}
use mathlib.Core.Bool.{true, false}
use mathlib.Core.List.{List, [], ◌∷◌}
use mathlib.Core.Logic.{◌⊎◌, inl, inr}
use mathlib.Core.Option.{Option, none, some}
use native.Mathlib.Omega.{arith}
use tig_mining_pool_public.Common.Tests.{if◌then◌else◌, not_gt}
use tig_mining_pool_public.Common.Lists.{In}
use tig_mining_pool_public.Common.Sort.{IsComparison, not_gt_refl}

module _ {A : Type 0} (c : A → A → Ordering) where
  -- The later of two equal elements, as the library's `max_by` has it.
  abbrev larger : A → Option A → A
  larger x none = x
  larger x (some m) = if not_gt (c x m) then m else x

  unfoldable pub max? : List A → Option A
  max? [] = none
  max? (x ∷ xs) = some (larger x (max? xs))

  pub max?-none : (xs : List A) → max? xs ≡ none → xs ≡ []
  unfolding max?
  max?-none [] h = refl
  max?-none (x ∷ xs) h = cc

  pub max?-some : (a : A) (xs : List A) → In a xs → (m : A) × (max? xs ≡ some m)
  unfolding max?
  max?-some a [] i = absurd i
  max?-some a (x ∷ xs) i = (larger x (max? xs), refl)

  larger-cases :
      (x m : A)
      → ((larger x (some m) ≡ m) × (not_gt (c x m) ≡ true))
        ⊎ ((larger x (some m) ≡ x) × (not_gt (c x m) ≡ false))
  larger-cases x m = ground arith

  larger-In :
      (x : A) (old : Option A) (xs : List A)
      → ((m : A) → old ≡ some m → In m xs)
      → In (larger x old) (x ∷ xs)
  larger-In x none xs f = inl refl
  larger-In x (some m) xs f = elim (larger-cases x m) [
    | inl (e, _) ↦ subst (λ k. In k (x ∷ xs)) (sym e) (inr (f m refl))
    | inr (e, _) ↦ inl e
  ]

  pub max?-In : (m : A) (xs : List A) → max? xs ≡ some m → In m xs
  unfolding max?
  max?-In m [] h = cc
  max?-In m (x ∷ xs) h =
      let e : larger x (max? xs) ≡ m = cc in
      subst (λ k. In k (x ∷ xs)) e (larger-In x (max? xs) xs (λ k e. max?-In k xs e))

  module _ (o : IsComparison c) where
    larger_upper :
        (x : A) (old : Option A) (xs : List A)
        → (old ≡ none → xs ≡ [])
        → ((m : A) → old ≡ some m → (a : A) → In a xs → not_gt (c a m) ≡ true)
        → (a : A) → In a (x ∷ xs)
        → not_gt (c a (larger x old)) ≡ true
    larger_upper x none xs g f a (inl e) = rw e (not_gt_refl c o x)
    larger_upper x none xs g f a (inr i) = absurd (subst (In a) (g refl) i)
    larger_upper x (some m) xs g f a i = elim (larger-cases x m) [
      | inl (k, e) ↦
          subst (λ z. not_gt (c a z) ≡ true) (sym k)
            (elim i [ inl q ↦ rw q e | inr j ↦ f m refl a j ])
      | inr (k, e) ↦
          let m_below : not_gt (c m x) ≡ true = ground (arith, o.swapped x m) in
          subst (λ z. not_gt (c a z) ≡ true) (sym k)
            (elim i [
              | inl q ↦ rw q (not_gt_refl c o x)
              | inr j ↦ o.transitive a m x (f m refl a j) m_below
            ])
    ]

    -- No element is above the maximum.
    pub max?_upper :
        (m : A) (xs : List A) → max? xs ≡ some m → (a : A) → In a xs → not_gt (c a m) ≡ true
    unfolding max?
    max?_upper m [] h a i = absurd i
    max?_upper m (x ∷ xs) h a i =
        let e : larger x (max? xs) ≡ m = cc in
        subst (λ k. not_gt (c a k) ≡ true) e
          (larger_upper x (max? xs) xs (max?-none xs) (λ k e b j. max?_upper k xs e b j) a i)
