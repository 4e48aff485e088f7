-- ===== src/Common/Entries.antt =====
-- The entries of a map as a list: what `insert` adds, keeps and replaces.
use Prim.Native.Nat.{Ordering}
use mathlib.Core.Path.{◌≡◌, refl, sym, ap, ◌∙◌}
use mathlib.Core.List.{[], ◌∷◌}
use mathlib.Core.Logic.{◌⊎◌, inl, inr}
use tig_mining_pool_public.Common.Lists.{In}
use tig_mining_pool_public.Common.Bytes.{Bytes, cmp, eq_of_cmp}
use tig_mining_pool_public.Common.Map.{Map, insert, insert_at}

module _ {V : Type 0} where
  insert_at-In :
      (o : Ordering) (e new first : Bytes × V) (m rest : Map V)
      → (In e rest → (e ≡ new) ⊎ In e m)
      → In e (insert_at o new first m rest)
      → (e ≡ new) ⊎ In e (first ∷ m)
  insert_at-In Ordering.lt e new first m rest f i = i
  insert_at-In Ordering.eq e new first m rest f (inl p) = inl p
  insert_at-In Ordering.eq e new first m rest f (inr i) = inr (inr i)
  insert_at-In Ordering.gt e new first m rest f (inl p) = inr (inl p)
  insert_at-In Ordering.gt e new first m rest f (inr i) = elim (f i) [
    | inl p ↦ inl p
    | inr j ↦ inr (inr j)
  ]

  -- An entry after an insertion is the new one or an old one.
  pub insert-In :
      (e : Bytes × V) (k : Bytes) (v : V) (m : Map V) → In e (insert k v m) → (e ≡ (k, v)) ⊎ In e m
  unfolding insert
  insert-In e k v [] i = i
  insert-In e k v ((j, w) ∷ m) i =
      insert_at-In (cmp k j) e (k, v) (j, w) m (insert k v m) (insert-In e k v m) i

  -- Some value stands under the key.
  abbrev pub Has : Bytes → Map V → Type 0
  Has k m = (v : V) × In (k, v) m

  Has-cons : (k : Bytes) (e : Bytes × V) (m : Map V) → Has k m → Has k (e ∷ m)
  Has-cons k e m (v, i) = (v, inr i)

  insert_at-Has_self :
      (o : Ordering) (k : Bytes) (v : V) (first : Bytes × V) (m rest : Map V)
      → Has k rest
      → Has k (insert_at o (k, v) first m rest)
  insert_at-Has_self Ordering.lt k v first m rest h = (v, inl refl)
  insert_at-Has_self Ordering.eq k v first m rest h = (v, inl refl)
  insert_at-Has_self Ordering.gt k v first m rest h = Has-cons k first rest h

  pub insert-Has_self : (k : Bytes) (v : V) (m : Map V) → Has k (insert k v m)
  unfolding insert
  insert-Has_self k v [] = (v, inl refl)
  insert-Has_self k v ((j, w) ∷ m) =
      insert_at-Has_self (cmp k j) k v (j, w) m (insert k v m) (insert-Has_self k v m)

  insert_at-Has :
      (o : Ordering) (i k : Bytes) (v : V) (first : Bytes × V) (m rest : Map V)
      → (o ≡ Ordering.eq → k ≡ first.0)
      → (Has i m → Has i rest)
      → Has i (first ∷ m)
      → Has i (insert_at o (k, v) first m rest)
  insert_at-Has Ordering.lt i k v first m rest q f h = Has-cons i (k, v) (first ∷ m) h
  insert_at-Has Ordering.eq i k v first m rest q f (u, inl p) =
      (v, inl (λ d. ((ap (λ e. e.0) p ∙ sym (q refl)) d, v)))
  insert_at-Has Ordering.eq i k v first m rest q f (u, inr j) = (u, inr j)
  insert_at-Has Ordering.gt i k v first m rest q f (u, inl p) = (u, inl p)
  insert_at-Has Ordering.gt i k v first m rest q f (u, inr j) = Has-cons i first rest (f (u, j))

  -- A key that has a value keeps one.
  pub insert-Has : (i k : Bytes) (v : V) (m : Map V) → Has i m → Has i (insert k v m)
  unfolding insert
  insert-Has i k v [] (u, h) = absurd h
  insert-Has i k v ((j, w) ∷ m) h =
      insert_at-Has (cmp k j) i k v (j, w) m (insert k v m) (eq_of_cmp k j) (insert-Has i k v m) h
