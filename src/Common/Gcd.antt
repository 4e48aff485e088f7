-- ===== src/Common/Gcd.antt =====
-- Euclid's algorithm as a `while` loop, on native numbers, and the facts of divisibility for which
-- the pool calls it.
use Prim.Native.Nat.{ℕ, zero, suc, ◌+◌, ◌*◌, ◌/◌, ◌%◌, ◌<◌, ◌∣◌}
use mathlib.Core.Path.{◌≡◌, refl, sym, ap, subst}
use mathlib.Core.Logic.{dite, ◌↔◌}
use mathlib.Core.WellFounded.{Acc}
use native.Mathlib.Decide.{dec_lt}
use native.Mathlib.Nat
use native.Mathlib.Omega.{arith}

below-Acc : (bound n : ℕ) → n < bound → Acc ◌<◌ n
below-Acc zero n h = elim h [ ]
below-Acc (suc bound) n h = Acc.intro n (λ m lt. below-Acc bound m (omega arith))

abbrev loop_ends : (n : ℕ) → Acc ◌<◌ n
unfolding below-Acc
loop_ends n = below-Acc (suc n) n (omega arith)

remainder-lt : (a b : ℕ) → 0 < b → a % b < b
remainder-lt a b h = omega arith

-- `while b != 0 { let remainder = a % b; a = b; b = remainder; }`, by recursion on how far `b` can
-- fall.
gcd_loop : (a b : ℕ) → Acc ◌<◌ b → ℕ
unfolding remainder-lt
gcd_loop a b (Acc.intro _ smaller) =
    dite (dec_lt 0 b) (λ h. gcd_loop b (a % b) (smaller (a % b) (remainder-lt a b h))) (λ _. a)

unfoldable pub gcd : ℕ → ℕ → ℕ
unfolding gcd_loop dec_lt below-Acc
gcd a b = gcd_loop a b (loop_ends b)

-- The loop's invariant rule: what holds where it ends, and is carried back over a round, holds.
gcd_loop_inv {ℓ} :
    (P : ℕ → ℕ → ℕ → Type ℓ)
    → ((a : ℕ) → P a 0 a)
    → ((a b g : ℕ) → P b (a % b) g → P a b g)
    → (a b : ℕ) (w : Acc ◌<◌ b) → P a b (gcd_loop a b w)
unfolding gcd_loop
gcd_loop_inv P ends back a b (Acc.intro _ smaller) =
    elim (dec_lt 0 b)
      as (λ d.
        P a b (dite d (λ h. gcd_loop b (a % b) (smaller (a % b) (remainder-lt a b h))) (λ _. a))) [
          | yes h ↦
              back a b _ (gcd_loop_inv P ends back b (a % b) (smaller (a % b) (remainder-lt a b h)))
          | no h ↦ let z : b ≡ 0 = omega arith in subst (λ n. P a n a) (sym z) (ends a)
        ]

gcd_inv {ℓ} :
    (P : ℕ → ℕ → ℕ → Type ℓ)
    → ((a : ℕ) → P a 0 a)
    → ((a b g : ℕ) → P b (a % b) g → P a b g)
    → (a b : ℕ) → P a b (gcd a b)
unfolding gcd
gcd_inv P ends back a b = gcd_loop_inv P ends back a b (loop_ends b)

pub gcd-dvd : (a b : ℕ) → (gcd a b ∣ a) × (gcd a b ∣ b)
gcd-dvd =
    gcd_inv (λ a b g. (g ∣ a) × (g ∣ b)) (λ a. (Nat.dvd_refl a, Nat.dvd-zero a))
      (λ a b g (gb, gr). ((Nat.dvd-mod_iff g gb).0 gr, gb))

remainder-dvd : (k a b c : ℕ) → k ∣ a * c → k ∣ b * c → k ∣ a % b * c
remainder-dvd k a b c ha hb =
    (Nat.dvd-add_iff_right k (Nat.dvd-mul_left_of_dvd k hb (a / b))).1 (subst (◌∣◌ k) split ha)
  where
    split : a * c ≡ a / b * (b * c) + a % b * c
    split = rw (← Nat.mul_assoc (a / b) b c, ← Nat.add-mul, Nat.div-add-mod') refl

-- What divides a multiple of both divides that multiple of the result.
pub dvd-gcd-mul : (a b k c : ℕ) → k ∣ a * c → k ∣ b * c → k ∣ gcd a b * c
dvd-gcd-mul =
    gcd_inv (λ a b g. (k c : ℕ) → k ∣ a * c → k ∣ b * c → k ∣ g * c) (λ a k c ha hb. ha)
      (λ a b g ih k c ha hb. ih k c hb (remainder-dvd k a b c ha hb))

pub dvd-gcd : (k a b : ℕ) → k ∣ a → k ∣ b → k ∣ gcd a b
dvd-gcd k a b ha hb = subst (◌∣◌ k) (Nat.mul-one (gcd a b)) (
    dvd-gcd-mul a b k 1 (subst (◌∣◌ k) (sym (Nat.mul-one a)) ha)
      (subst (◌∣◌ k) (sym (Nat.mul-one b)) hb))

pub gcd-pos_right : (a b : ℕ) → 0 < b → 0 < gcd a b
gcd-pos_right a b h = Nat.pos_of_dvd_of_pos (gcd-dvd a b).1 h

pub gcd-pos_left : (a b : ℕ) → 0 < a → 0 < gcd a b
gcd-pos_left a b h = Nat.pos_of_dvd_of_pos (gcd-dvd a b).0 h

pub div_pos_of_dvd : (a g : ℕ) → 0 < a → g ∣ a → 0 < a / g
div_pos_of_dvd a g h d = let e = Nat.div-mul_cancel g d in grind arith

pub div-gcd-pos_left : (a b : ℕ) → 0 < a → 0 < a / gcd a b
div-gcd-pos_left a b h = div_pos_of_dvd a (gcd a b) h (gcd-dvd a b).0

pub div-gcd-pos_right : (a b : ℕ) → 0 < b → 0 < b / gcd a b
div-gcd-pos_right a b h = div_pos_of_dvd b (gcd a b) h (gcd-dvd a b).1

-- Two numbers over their greatest common divisor have no common factor left.
pub gcd_div_div : (a b : ℕ) → 0 < gcd a b → gcd (a / gcd a b) (b / gcd a b) ≡ 1
gcd_div_div a b h =
    Nat.eq-one_of_dvd-one
      (Nat.dvd_of_mul-dvd-mul_right left h (subst (◌∣◌ (left * g)) (sym (Nat.one-mul g)) both))
  where
    g : ℕ
    g = gcd a b

    left : ℕ
    left = gcd (a / g) (b / g)

    both : left * g ∣ g
    both =
        dvd-gcd (left * g) a b
          (subst (◌∣◌ (left * g)) (Nat.div-mul_cancel g (gcd-dvd a b).0)
            (Nat.mul-dvd-mul_right left (gcd-dvd (a / g) (b / g)).0 g))
          (subst (◌∣◌ (left * g)) (Nat.div-mul_cancel g (gcd-dvd a b).1)
            (Nat.mul-dvd-mul_right left (gcd-dvd (a / g) (b / g)).1 g))

-- Euclid's lemma.
pub dvd_of_coprime : (a b c : ℕ) → gcd a b ≡ 1 → a ∣ b * c → a ∣ c
dvd_of_coprime a b c e h =
    subst (◌∣◌ a) (rw (e, Nat.one-mul c)) (dvd-gcd-mul a b a c (Nat.dvd-mul_right a c) h)

-- A multiple `x * b` is divisible by `a` exactly where `x` is by `a / gcd a b`.
pub dvd_mul_iff : (a b x : ℕ) → 0 < a → (a ∣ x * b) ↔ (a / gcd a b ∣ x)
dvd_mul_iff a b x h = (down, up)
  where
    g : ℕ
    g = gcd a b

    pos : 0 < g
    pos = gcd-pos_left a b h

    ea : a / g * g ≡ a
    ea = Nat.div-mul_cancel g (gcd-dvd a b).0

    eb : b / g * g ≡ b
    eb = Nat.div-mul_cancel g (gcd-dvd a b).1

    regroup : x * b ≡ b / g * x * g
    regroup = omega (arith, ap (λ (n : ℕ). n * x) eb)

    down : a ∣ x * b → a / g ∣ x
    down d = dvd_of_coprime (a / g) (b / g) x (gcd_div_div a b pos) (
        Nat.dvd_of_mul-dvd-mul_right (a / g) pos
          (subst (λ n. n ∣ b / g * x * g) (sym ea) (subst (◌∣◌ a) regroup d)))

    up : a / g ∣ x → a ∣ x * b
    up d =
        subst (λ n. n ∣ x * b) ea
          (subst (◌∣◌ (a / g * g)) (sym regroup)
            (Nat.mul-dvd-mul_right (a / g) (Nat.dvd-mul_left_of_dvd (a / g) d (b / g)) g))
