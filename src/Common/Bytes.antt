-- ===== src/Common/Bytes.antt =====
-- Byte arrays as the lists of their bytes, and strings as the lists of their code points: the
-- lexicographic order of these is the order of their bytes in UTF-8, which `str` has.
use Prim.Native.Char.{code}
use Prim.Native.Nat.{ℕ, compare, Ordering}
use Prim.Native.String.{String}
use mathlib.Core.Path.{◌≡◌, refl}
use mathlib.Core.Logic.{◌↔◌}
use mathlib.Core.Bool.{Bool, true, false, ◌||◌}
use mathlib.Core.List.{List, [], ◌∷◌}
use native.Mathlib.Omega.{arith}
use tig_mining_pool_public.Common.Lists.{In}
use tig_mining_pool_public.Common.Tests.{is_lt, is_eq, not_gt, swap, compare_refl}

abbrev pub Bytes : Type 0
Bytes = List ℕ

-- The code points of a text.
abbrev pub codes : String → Bytes
codes String.[] = []
codes (String.◌∷◌ c s) = code c ∷ codes s

-- The verdict on the first place where the two differ, `rest` where none did yet.
abbrev pub and_then : Ordering → Ordering → Ordering
and_then Ordering.eq rest = rest
and_then Ordering.lt rest = Ordering.lt
and_then Ordering.gt rest = Ordering.gt

-- `Ord::cmp`
unfoldable pub cmp : Bytes → Bytes → Ordering
cmp [] [] = Ordering.eq
cmp [] (y ∷ ys) = Ordering.lt
cmp (x ∷ xs) [] = Ordering.gt
cmp (x ∷ xs) (y ∷ ys) = and_then (compare x y) (cmp xs ys)

abbrev pub same : Bytes → Bytes → Bool
same a b = is_eq (cmp a b)

abbrev pub before : Bytes → Bytes → Bool
before a b = is_lt (cmp a b)

-- `slice::contains`
unfoldable pub contains : Bytes → List Bytes → Bool
contains a [] = false
contains a (x ∷ xs) = same x a || contains a xs

pub cmp_refl : (a : Bytes) → cmp a a ≡ Ordering.eq
unfolding cmp
cmp_refl [] = refl
cmp_refl (x ∷ xs) = rw (compare_refl x) (cmp_refl xs)

pub eq_of_cmp : (a b : Bytes) → cmp a b ≡ Ordering.eq → a ≡ b
unfolding cmp
eq_of_cmp [] [] h = refl
eq_of_cmp [] (y ∷ ys) h = cc
eq_of_cmp (x ∷ xs) [] h = cc
eq_of_cmp (x ∷ xs) (y ∷ ys) h = ground (arith, eq_of_cmp xs ys)

pub cmp-swap : (a b : Bytes) → cmp b a ≡ swap (cmp a b)
unfolding cmp
cmp-swap [] [] = refl
cmp-swap [] (y ∷ ys) = refl
cmp-swap (x ∷ xs) [] = refl
cmp-swap (x ∷ xs) (y ∷ ys) = ground (arith, cmp-swap xs ys)

pub cmp-lt_trans :
    (a b c : Bytes) → cmp a b ≡ Ordering.lt → cmp b c ≡ Ordering.lt → cmp a c ≡ Ordering.lt
unfolding cmp
cmp-lt_trans [] [] c h k = k
cmp-lt_trans [] (y ∷ ys) [] h k = cc
cmp-lt_trans [] (y ∷ ys) (z ∷ zs) h k = refl
cmp-lt_trans (x ∷ xs) [] c h k = cc
cmp-lt_trans (x ∷ xs) (y ∷ ys) [] h k = cc
cmp-lt_trans (x ∷ xs) (y ∷ ys) (z ∷ zs) h k = ground (arith, cmp-lt_trans xs ys zs)

pub cmp-eq_iff : (a b : Bytes) → (cmp a b ≡ Ordering.eq) ↔ (a ≡ b)
cmp-eq_iff a b = (eq_of_cmp a b, λ e. rw e (cmp_refl b))

-- What does not come after: the order in which `sort` leaves strings.
pub cmp-not_gt_trans :
    (a b c : Bytes) → not_gt (cmp a b) ≡ true → not_gt (cmp b c) ≡ true → not_gt (cmp a c) ≡ true
cmp-not_gt_trans a b c h k = ground (arith, cmp-lt_trans a b c, eq_of_cmp a b, eq_of_cmp b c)

pub same-eq : (a b : Bytes) → same a b ≡ true → a ≡ b
same-eq a b h = eq_of_cmp a b (ground arith)

pub same_refl : (a : Bytes) → same a a ≡ true
same_refl a = rw (cmp_refl a)

pub contains_iff : (a : Bytes) (xs : List Bytes) → (contains a xs ≡ true) ↔ In a xs
unfolding contains
contains_iff a [] = (λ h. cc, λ i. absurd i)
contains_iff a (x ∷ xs) = ground (arith, contains_iff a xs, eq_of_cmp x a, cmp_refl x)
