-- ===== src/Decision/Ratio/Exact.antt =====
-- crates/pool-decision/src/ratio.rs: the constructor, and the terms its results are in.
use native.Mathlib.Nat
use tig_mining_pool_public.Common.{
  ℕ, ◌*◌, ◌/◌, ◌≤◌, ◌<◌, ◌∣◌, ◌≡◌, ◌↔◌, sym, ap, ◌∙◌, subst, ok, arith,
}
use tig_mining_pool_public.Common.Gcd
use tig_mining_pool_public.Decision.Ratio.{Ratio, zero_ratio, gcd, new, whole}

-- In lowest terms, and a denominator that is not zero.
pub record IsReduced (r : Ratio) : Type 0 where
  pub positive : 0 < r.denominator
  pub lowest : Gcd.gcd r.numerator r.denominator ≡ 1

-- `r` is the value `n / d`.
abbrev pub IsValue : Ratio → ℕ → ℕ → Type 0
IsValue r n d = r.numerator * d ≡ n * r.denominator

pub whole-IsReduced : (n : ℕ) → IsReduced (whole n)
unfolding whole
whole-IsReduced n = record {
  positive = omega arith;
  lowest = Nat.eq-one_of_dvd-one (Gcd.gcd-dvd n 1).1;
}

pub zero_ratio-IsReduced : IsReduced zero_ratio
unfolding whole
zero_ratio-IsReduced = whole-IsReduced 0

pub gcd_pos : (n d : ℕ) → 0 < d → gcd n d ≡ Gcd.gcd n d
unfolding gcd
gcd_pos n d h = ground (arith, Gcd.gcd-pos_right n d h)

pub reduced : (n d : ℕ) → Ratio
reduced n d = record { numerator = n / Gcd.gcd n d; denominator = d / Gcd.gcd n d }

pub new_reduced : (n d : ℕ) → 0 < d → new n d ≡ ok (reduced n d)
unfolding new reduced
new_reduced n d h = rw (gcd_pos n d h) (ground arith)

reduced-IsReduced : (n d : ℕ) → 0 < d → IsReduced (reduced n d)
unfolding reduced
reduced-IsReduced n d h = record {
  positive = Gcd.div-gcd-pos_right n d h;
  lowest = Gcd.gcd_div_div n d (Gcd.gcd-pos_right n d h);
}

reduced-IsValue : (n d : ℕ) → IsValue (reduced n d) n d
unfolding reduced
reduced-IsValue n d =
    let g = Gcd.gcd n d in
    omega (
      arith,
      ap (λ (k : ℕ). k * (d / g)) (Nat.div-mul_cancel g (Gcd.gcd-dvd n d).0),
      ap (λ (k : ℕ). n / g * k) (Nat.div-mul_cancel g (Gcd.gcd-dvd n d).1),
    )

-- `Ratio::new` succeeds on every denominator but zero, and its result is the value `n / d` in
-- lowest terms, with no term larger than the one given.
pub new_exact :
    (n d : ℕ)
    → 0 < d
    → (r : Ratio) × (new n d ≡ ok r)
      × IsValue r n d
      × IsReduced r
      × (r.numerator ≤ n)
      × (r.denominator ≤ d)
unfolding reduced
new_exact n d h = (
  reduced n d,
  new_reduced n d h,
  reduced-IsValue n d,
  reduced-IsReduced n d h,
  Nat.div-le_self n (Gcd.gcd n d),
  Nat.div-le_self d (Gcd.gcd n d),
)

pub new_pos : (n d : ℕ) {r : Ratio} → new n d ≡ ok r → 0 < d
unfolding new
new_pos n d h = ground arith

pub new_IsReduced : (n d : ℕ) (r : Ratio) → new n d ≡ ok r → IsReduced r × IsValue r n d
new_IsReduced n d r h =
    let pos = new_pos n d h in
    let e : reduced n d ≡ r = cc (new_reduced n d pos) in
    subst (λ q. IsReduced q × IsValue q n d) e (reduced-IsReduced n d pos, reduced-IsValue n d)

denominator-dvd :
    (r s : Ratio)
    → IsReduced r
    → IsValue r s.numerator s.denominator
    → r.denominator ∣ s.denominator
denominator-dvd r s hr e = subst (◌∣◌ r.denominator) (rw (hr.lowest, Nat.one-mul s.denominator)) (
    Gcd.dvd-gcd-mul r.numerator r.denominator r.denominator s.denominator
      (subst (◌∣◌ r.denominator) (sym e) (Nat.dvd-mul_left r.denominator s.numerator))
      (Nat.dvd-mul_right r.denominator s.denominator))

-- Values in lowest terms that are equal as fractions are equal.
pub reduced_unique :
    (r s : Ratio) → IsReduced r → IsReduced s → IsValue r s.numerator s.denominator → r ≡ s
reduced_unique r s hr hs e =
    let d : r.denominator ≡ s.denominator =
      Nat.dvd_antisymm (denominator-dvd r s hr e) (denominator-dvd s r hs (sym e)) in
    let n : r.numerator ≡ s.numerator =
      Nat.eq_of_mul-eq-mul_right s.denominator hs.positive r.numerator s.numerator
        (e ∙ ap (◌*◌ s.numerator) d) in
    λ i. record { numerator = n i; denominator = d i }

-- Equality of fractions is transitive over a denominator that is not zero.
pub cross_trans : (a b c d e f : ℕ) → 0 < d → a * d ≡ c * b → c * f ≡ e * d → a * f ≡ e * b
cross_trans a b c d e f pos p q =
    Nat.eq_of_mul-eq-mul_right d pos (a * f) (e * b)
      (omega (arith, ap (λ (k : ℕ). k * f) p, ap (λ (k : ℕ). k * b) q))

-- Where `Ratio::new` accepts two fractions, its results are the same ratio exactly where the fractions
-- are equal.
pub new_canonical :
    (n d m e : ℕ) (r s : Ratio) → new n d ≡ ok r → new m e ≡ ok s → (r ≡ s) ↔ (n * e ≡ m * d)
new_canonical n d m e r s hr hs = (to, from)
  where
    vr : IsReduced r × IsValue r n d
    vr = new_IsReduced n d r hr

    vs : IsReduced s × IsValue s m e
    vs = new_IsReduced m e s hs

    to : r ≡ s → n * e ≡ m * d
    to q =
        cross_trans n d r.numerator r.denominator m e vr.0.positive (sym vr.1)
          (subst (λ x. IsValue x m e) (sym q) vs.1)

    from : n * e ≡ m * d → r ≡ s
    from q = reduced_unique r s vr.0 vs.0 (
        cross_trans r.numerator r.denominator m e s.numerator s.denominator (new_pos m e hs)
          (cross_trans r.numerator r.denominator n d m e (new_pos n d hr) vr.1 q) (sym vs.1))
