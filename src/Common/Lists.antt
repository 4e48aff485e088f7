-- ===== src/Common/Lists.antt =====
-- Lists measured by native numbers, and predicates by recursion on a list.
use Prim.Native.Nat.{ℕ, suc}
use mathlib.Core.Path.{◌≡◌, refl, sym}
use mathlib.Core.Logic.{◌⊎◌, ◌↔◌, inl, inr}
use mathlib.Core.Bool.{Bool, true, false}
use mathlib.Core.Option.{Option, none, some}
use mathlib.Core.List.{List, [], ◌∷◌, ◌++◌, map}
use native.Mathlib.Omega.{arith}
use tig_mining_pool_public.Common.Tests.{if◌then◌else◌, Bool-cases}

module _ {ℓ} {A : Type ℓ} where
  abbrev pub length : List A → ℕ
  length [] = 0
  length (x ∷ xs) = suc (length xs)

  abbrev pub All {κ} : (A → Type κ) → List A → Type κ
  All P [] = Unit
  All P (x ∷ xs) = P x × All P xs

  -- `Iterator::filter`
  abbrev pub keep : (A → Bool) → List A → List A
  keep p [] = []
  keep p (x ∷ xs) = if p x then x ∷ keep p xs else keep p xs

  -- `Iterator::find`
  abbrev pub find? : (A → Bool) → List A → Option A
  find? p [] = none
  find? p (x ∷ xs) = if p x then some x else find? p xs

  -- `slice::first`
  abbrev pub head? : List A → Option A
  head? [] = none
  head? (x ∷ xs) = some x

-- A place of `a` in the list, kept as data so that a proof can split on it.
abbrev pub In : {A : Type 0} → A → List A → Type 0
In a [] = ⊥
In a (x ∷ xs) = (a ≡ x) ⊎ In a xs

module _ {A : Type 0} where
  pub All-In {κ} : (P : A → Type κ) (a : A) (xs : List A) → All P xs → In a xs → P a
  All-In P a [] h i = absurd i
  All-In P a (x ∷ xs) h (inl e) = rw e h.0
  All-In P a (x ∷ xs) h (inr i) = All-In P a xs h.1 i

  pub All-of_In {κ} : (P : A → Type κ) (xs : List A) → ((a : A) → In a xs → P a) → All P xs
  All-of_In P [] f = tt
  All-of_In P (x ∷ xs) f = (f x (inl refl), All-of_In P xs (λ a i. f a (inr i)))

  pub In-append : (a : A) (xs ys : List A) → In a (xs ++ ys) ↔ (In a xs ⊎ In a ys)
  In-append a [] ys = (λ i. inr i, λ i. elim i [ inl j ↦ absurd j | inr j ↦ j ])
  In-append a (x ∷ xs) ys = ground (arith, In-append a xs ys)

  pub In-keep : (p : A → Bool) (a : A) (xs : List A) → In a xs → p a ≡ true → In a (keep p xs)
  In-keep p a [] i h = i
  In-keep p a (x ∷ xs) (inl e) h = let px : p x ≡ true = rw (← e) h in rw px (inl e)
  In-keep p a (x ∷ xs) (inr i) h = ground (arith, In-keep p a xs i h)

  pub keep-In : (p : A → Bool) (a : A) (xs : List A) → In a (keep p xs) → In a xs × (p a ≡ true)
  keep-In p a [] i = absurd i
  keep-In p a (x ∷ xs) i = ground (arith, keep-In p a xs)

pub find?-none :
    {A : Type 0} (p : A → Bool) (xs : List A) → find? p xs ≡ none → (a : A) → In a xs → p a ≡ false
find?-none p [] e a i = absurd i
find?-none p (x ∷ xs) e a i = elim (Bool-cases (p x)) [
  | inl q ↦ ground arith
  | inr q ↦ elim i [ inl r ↦ rw r q | inr j ↦ find?-none p xs (ground arith) a j ]
]

pub none-find? :
    {A : Type 0} (p : A → Bool) (xs : List A)
    → ((a : A) → In a xs → p a ≡ false)
    → find? p xs ≡ none
none-find? p [] f = refl
none-find? p (x ∷ xs) f = rw (f x (inl refl)) (none-find? p xs (λ a i. f a (inr i)))

pub find?_found :
    {A : Type 0} (p : A → Bool) (x : A) (xs : List A) → find? p xs ≡ some x → In x xs × (p x ≡ true)
find?_found p x [] e = cc
find?_found p x (y ∷ ys) e = ground (arith, find?_found p x ys)

pub head?-some : {A : Type 0} (a : A) (xs : List A) → In a xs → (x : A) × (head? xs ≡ some x)
head?-some a [] i = absurd i
head?-some a (x ∷ xs) i = (x, refl)

module _ {A B : Type 0} (f : A → B) where
  pub In-map : (a : A) (xs : List A) → In a xs → In (f a) (map f xs)
  In-map a [] i = absurd i
  In-map a (x ∷ xs) (inl e) = inl (rw e)
  In-map a (x ∷ xs) (inr i) = inr (In-map a xs i)

  pub map-In : (b : B) (xs : List A) → In b (map f xs) → (a : A) × In a xs × (f a ≡ b)
  map-In b [] i = absurd i
  map-In b (x ∷ xs) (inl e) = (x, inl refl, sym e)
  map-In b (x ∷ xs) (inr i) = let (a, j, e) = map-In b xs i in (a, inr j, e)
