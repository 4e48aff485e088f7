-- ===== src/Decision/Bundles/Aligned.antt =====
-- crates/pool-decision/src/bundles.rs: the alignment formula, against its meaning.
use native.Mathlib.Nat
use tig_mining_pool_public.Common.{
  ℕ, ◌+◌, ◌*◌, ◌/◌, ◌%◌, ◌≤◌, ◌<◌, ◌≡◌, ◌⊎◌, inl, inr, sym, subst, arith,
}
use tig_mining_pool_public.Common.Gcd
use tig_mining_pool_public.Decision.Bundles.{div_ceil}

abbrev pub Fills : ℕ → ℕ → ℕ → Type 0
Fills cores nonces n = n * nonces % cores ≡ 0

pub record IsLeastAligned (cores nonces minimum n : ℕ) : Type 0 where
  pub enough : minimum ≤ n
  pub fills : Fills cores nonces n
  pub least : (k : ℕ) → minimum ≤ k → Fills cores nonces k → n ≤ k

abbrev pub aligned : ℕ → ℕ → ℕ → ℕ
aligned cores nonces minimum =
    let multiple = cores / Gcd.gcd cores nonces in div_ceil minimum multiple * multiple

div_ceil-cases :
    (a b : ℕ) → ((div_ceil a b ≡ a / b + 1) × (0 < a % b)) ⊎ ((div_ceil a b ≡ a / b) × (a % b ≡ 0))
unfolding div_ceil
div_ceil-cases a b = ground arith

div_ceil-le-mul : (a b : ℕ) → 0 < b → a ≤ div_ceil a b * b
div_ceil-le-mul a b h = elim (div_ceil-cases a b) [
  | inl (e, r) ↦ rw e (omega (arith, Nat.div-add-mod' a b))
  | inr (e, r) ↦ rw e (omega (arith, Nat.div-add-mod' a b))
]

div_ceil_least : (a b q : ℕ) → 0 < b → a ≤ q * b → div_ceil a b ≤ q
unfolding div_ceil
div_ceil_least a b q h k = ground (
  arith,
  Nat.div-add-mod' a b,
  Nat.lt_of_mul-lt-mul_right b {m = a / b} {n = q},
  Nat.le_of_mul-le-mul_right {m = a / b} {n = q} {k = b},
)

-- The formula gives the least count that is enough and fills the cores.
pub aligned-IsLeastAligned :
    (cores nonces minimum : ℕ)
    → 0 < cores
    → IsLeastAligned cores nonces minimum (aligned cores nonces minimum)
aligned-IsLeastAligned cores nonces minimum h = record {
  enough = div_ceil-le-mul minimum multiple pos;
  fills =
      Nat.mod-eq-zero_of_dvd cores
        ((Gcd.dvd_mul_iff cores nonces _ h).1 (Nat.dvd-mul_left multiple steps));
  least = λ k enough fills.
      let d = (Gcd.dvd_mul_iff cores nonces k h).0 (Nat.dvd_of_mod-eq-zero cores fills) in
      let e : k / multiple * multiple ≡ k = Nat.div-mul_cancel multiple d in
      subst (λ n. steps * multiple ≤ n) e
        (Nat.mul-le-mul_right multiple (
          div_ceil_least minimum multiple (k / multiple) pos
            (subst (λ n. minimum ≤ n) (sym e) enough)));
}
  where
    multiple : ℕ
    multiple = cores / Gcd.gcd cores nonces

    steps : ℕ
    steps = div_ceil minimum multiple

    pos : 0 < multiple
    pos = Gcd.div-gcd-pos_left cores nonces h
