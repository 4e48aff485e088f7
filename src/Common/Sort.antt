-- ===== src/Common/Sort.antt =====
-- `slice::sort_by`, the stable sort of the standard library, as an insertion sort, and what the
-- first element of the result is.
use mathlib.Core.Path.{◌≡◌, refl}
use mathlib.Core.Bool.{true}
use mathlib.Core.List.{List, [], ◌∷◌}
use mathlib.Core.Logic.{◌⊎◌, inl, inr, ◌↔◌}
use mathlib.Core.Option.{some}
use Prim.Native.Nat.{suc, Ordering}
use native.Mathlib.Omega.{arith}
use tig_mining_pool_public.Common.Tests.{if◌then◌else◌, swap, not_gt}
use tig_mining_pool_public.Common.Lists.{In, All, All-In, head?, length}

-- What `sort_by` asks of its comparison.
pub record IsComparison {A : Type 0} (c : A → A → Ordering) : Type 0 where
  pub swapped : (a b : A) → c b a ≡ swap (c a b)
  pub transitive :
      (x y z : A) → not_gt (c x y) ≡ true → not_gt (c y z) ≡ true → not_gt (c x z) ≡ true

module _ {A : Type 0} (c : A → A → Ordering) where
  -- Before the first element that is not smaller.
  unfoldable pub place : A → List A → List A
  place x [] = x ∷ []
  place x (y ∷ ys) = if not_gt (c x y) then x ∷ y ∷ ys else y ∷ place x ys

  unfoldable pub sort_by : List A → List A
  sort_by [] = []
  sort_by (x ∷ xs) = place x (sort_by xs)

  -- Each element stands before those that are not smaller.
  abbrev pub IsAscending : List A → Type 0
  IsAscending [] = Unit
  IsAscending (x ∷ xs) = All (λ y. not_gt (c x y) ≡ true) xs × IsAscending xs

  In-place : (a x : A) (ys : List A) → In a (place x ys) ↔ ((a ≡ x) ⊎ In a ys)
  unfolding place
  In-place a x [] = (λ i. i, λ i. i)
  In-place a x (y ∷ ys) = ground (arith, In-place a x ys)

  pub In-sort_by : (a : A) (xs : List A) → In a (sort_by xs) ↔ In a xs
  unfolding sort_by
  In-sort_by a [] = (λ i. i, λ i. i)
  In-sort_by a (x ∷ xs) = ground (arith, In-place a x (sort_by xs), In-sort_by a xs)

  length-place : (x : A) (ys : List A) → length (place x ys) ≡ suc (length ys)
  unfolding place
  length-place x [] = refl
  length-place x (y ∷ ys) = ground (arith, length-place x ys)

  pub length-sort_by : (xs : List A) → length (sort_by xs) ≡ length xs
  unfolding sort_by
  length-sort_by [] = refl
  length-sort_by (x ∷ xs) = omega (arith, length-place x (sort_by xs), length-sort_by xs)

  module _ (o : IsComparison c) where
    All-le_trans :
        (x y : A) (zs : List A)
        → not_gt (c x y) ≡ true
        → All (λ z. not_gt (c y z) ≡ true) zs
        → All (λ z. not_gt (c x z) ≡ true) zs
    All-le_trans x y [] h s = tt
    All-le_trans x y (z ∷ zs) h s = (o.transitive x y z h s.0, All-le_trans x y zs h s.1)

    All-le-place :
        (x y : A) (zs : List A)
        → not_gt (c x y) ≡ true
        → All (λ z. not_gt (c x z) ≡ true) zs
        → All (λ z. not_gt (c x z) ≡ true) (place y zs)
    unfolding place
    All-le-place x y [] h s = (h, tt)
    All-le-place x y (z ∷ zs) h s = ground (arith, All-le-place x y zs)

    place-IsAscending : (x : A) (ys : List A) → IsAscending ys → IsAscending (place x ys)
    unfolding place
    place-IsAscending x [] s = (tt, tt)
    place-IsAscending x (y ∷ ys) s =
        ground
          (arith, place-IsAscending x ys, All-le_trans x y ys, All-le-place y x ys, o.swapped x y)

    pub sort_by-IsAscending : (xs : List A) → IsAscending (sort_by xs)
    unfolding sort_by
    sort_by-IsAscending [] = tt
    sort_by-IsAscending (x ∷ xs) = place-IsAscending x (sort_by xs) (sort_by-IsAscending xs)

    pub not_gt_refl : (a : A) → not_gt (c a a) ≡ true
    not_gt_refl a = ground (arith, o.swapped a a)

    pub head?_least :
        (w : A) (ys : List A)
        → IsAscending ys
        → head? ys ≡ some w
        → In w ys × ((a : A) → In a ys → not_gt (c w a) ≡ true)
    head?_least w [] s h = cc
    head?_least w (y ∷ ys) s h = (
      inl (ground arith),
      λ a i. elim i [
        | inl e ↦ ground (arith, not_gt_refl w)
        | inr j ↦ ground (arith, All-In (λ z. not_gt (c y z) ≡ true) a ys s.0 j)
      ],
    )

    -- The first element of the result is in the list, and nothing in the list is smaller.
    pub head?-sort_by :
        (w : A) (xs : List A)
        → head? (sort_by xs) ≡ some w
        → In w xs × ((a : A) → In a xs → not_gt (c w a) ≡ true)
    head?-sort_by w xs h =
        let least = head?_least w (sort_by xs) (sort_by-IsAscending xs) h in
        ((In-sort_by w xs).0 least.0, λ a i. least.1 a ((In-sort_by a xs).1 i))
