-- ===== src/Common/Map.antt =====
-- `BTreeMap<String, V>`: entries in ascending order of their keys, each key once. A `HashMap` of
-- which the code reads no order is the same list.
use Prim.Native.Nat.{Ordering}
use mathlib.Core.Path.{◌≡◌, refl, sym, subst}
use mathlib.Core.Bool.{true, false}
use mathlib.Core.List.{List, [], ◌∷◌, map}
use mathlib.Core.Logic.{inl, inr}
use mathlib.Core.Option.{Option, none, some}
use native.Mathlib.Omega.{arith}
use tig_mining_pool_public.Common.Tests.{if◌then◌else◌, Bool-cases}
use tig_mining_pool_public.Common.Bytes.{
  Bytes, cmp, same, cmp_refl, eq_of_cmp, cmp-swap, cmp-lt_trans,
}

abbrev pub Map {ℓ} : Type ℓ → Type ℓ
Map V = List (Bytes × V)

module _ {ℓ} {V : Type ℓ} where
  unfoldable pub get : Bytes → Map V → Option V
  get k [] = none
  get k ((j, v) ∷ m) = if same k j then some v else get k m

  -- The new entry against the first one, given what the rest would become.
  abbrev pub insert_at : Ordering → Bytes × V → Bytes × V → Map V → Map V → Map V
  insert_at Ordering.lt new first m rest = new ∷ first ∷ m
  insert_at Ordering.eq new first m rest = new ∷ m
  insert_at Ordering.gt new first m rest = first ∷ rest

  unfoldable pub insert : Bytes → V → Map V → Map V
  insert k v [] = (k, v) ∷ []
  insert k v ((j, w) ∷ m) = insert_at (cmp k j) (k, v) (j, w) m (insert k v m)

  -- `.get(k).copied().unwrap_or(d)`
  abbrev pub or_default : V → Option V → V
  or_default d none = d
  or_default d (some v) = v

  abbrev pub get_or : Bytes → V → Map V → V
  get_or k d m = or_default d (get k m)

  abbrev pub keys : Map V → List Bytes
  keys = map (λ e. e.0)

  pub get-insert :
      (j k : Bytes) (v : V) (m : Map V)
      → get j (insert k v m) ≡ (if same j k then some v else get j m)
  unfolding get insert
  get-insert j k v [] = refl
  get-insert j k v ((i, w) ∷ m) =
      ground (arith, get-insert j k v m, eq_of_cmp k i, eq_of_cmp j i, eq_of_cmp j k, cmp_refl j)

  pub get-insert_self : (k : Bytes) (v : V) (m : Map V) → get k (insert k v m) ≡ some v
  get-insert_self k v m = rw (get-insert k k v m, cmp_refl k)

  pub get-insert-same :
      (j k : Bytes) (v : V) (m : Map V) → same j k ≡ true → get j (insert k v m) ≡ some v
  get-insert-same j k v m q = rw (get-insert j k v m, q)

  pub get-insert_other :
      (j k : Bytes) (v : V) (m : Map V) → same j k ≡ false → get j (insert k v m) ≡ get j m
  get-insert_other j k v m q = rw (get-insert j k v m, q)

  -- What holds of the new value and of all that was there holds of all that is there.
  pub get_or-insert {κ} :
      (P : V → Type κ) (j k : Bytes) (v d : V) (m : Map V)
      → P v
      → P (get_or j d m)
      → P (get_or j d (insert k v m))
  get_or-insert P j k v d m hv h = elim (Bool-cases (same j k)) [
    | inl q ↦ subst (λ o. P (or_default d o)) (sym (get-insert-same j k v m q)) hv
    | inr q ↦ subst (λ o. P (or_default d o)) (sym (get-insert_other j k v m q)) h
  ]

  -- The keys ascend strictly, all of them above `k`.
  abbrev pub Above : Bytes → Map V → Type 0
  Above k [] = Unit {0}
  Above k ((j, v) ∷ m) = (cmp k j ≡ Ordering.lt) × Above j m

  abbrev pub IsSorted : Map V → Type 0
  IsSorted [] = Unit {0}
  IsSorted ((k, v) ∷ m) = Above k m

  insert-Above :
      (i k : Bytes) (v : V) (m : Map V) → cmp i k ≡ Ordering.lt → Above i m → Above i (insert k v m)
  unfolding insert
  insert-Above i k v [] h s = (h, tt)
  insert-Above i k v ((j, w) ∷ m) h s =
      ground (arith, insert-Above j k v m, cmp-swap k j, eq_of_cmp k j)

  pub insert-IsSorted : (k : Bytes) (v : V) (m : Map V) → IsSorted m → IsSorted (insert k v m)
  unfolding insert
  insert-IsSorted k v [] s = tt
  insert-IsSorted k v ((j, w) ∷ m) s =
      ground (arith, insert-Above j k v m, cmp-swap k j, eq_of_cmp k j)

  Above-trans : (i k : Bytes) (m : Map V) → cmp i k ≡ Ordering.lt → Above k m → Above i m
  Above-trans i k [] h s = tt
  Above-trans i k ((j, w) ∷ m) h s = (cmp-lt_trans i k j h s.0, s.1)

  -- A key below all others is not in the map.
  pub get-Above : (k : Bytes) (m : Map V) → Above k m → get k m ≡ none
  unfolding get
  get-Above k [] s = refl
  get-Above k ((j, w) ∷ m) s = rw s.0 (get-Above k m (Above-trans k j m s.0 s.1))

  pub Above-IsSorted : (k : Bytes) (m : Map V) → Above k m → IsSorted m
  Above-IsSorted k [] s = tt
  Above-IsSorted k ((j, w) ∷ m) s = s.1
