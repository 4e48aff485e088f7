-- ===== src/Decision/Challenge/Factor/Exact.antt =====
-- crates/pool-decision/src/challenge.rs: what the projected raw balancing factor is worth.
use native.Mathlib.Nat
use tig_mining_pool_public.Common.{
  ℕ, ◌+◌, ◌*◌, ◌<◌, ◌≡◌, ◌⊎◌, inl, inr, sym, ap, ◌∙◌, subst, Option, List, [], ◌∷◌, ok, ◌>>=◌,
  Bool-cases, >>=-eq-ok, arith,
}
use tig_mining_pool_public.Common.Bytes.{Bytes}
use tig_mining_pool_public.Common.Map.{Map, get_or}
use tig_mining_pool_public.Decision.Ratio.{Ratio, zero_ratio, new, whole, is_zero, checked_add}
use tig_mining_pool_public.Decision.Ratio.Exact.{
  IsReduced, IsValue, cross_trans, new_IsReduced, new_pos, whole-IsReduced, zero_ratio-IsReduced,
}
use tig_mining_pool_public.Decision.Ratio.Arithmetic.{checked_add_exact}
use tig_mining_pool_public.Decision.Challenge.{Challenge}
use tig_mining_pool_public.Decision.Challenge.Factor.{
  pool_on, sum_qualifiers, divide, factor_over, projected_raw_factor_of,
}

-- The sum of what a map gives for each active track.
abbrev pub total : (Bytes → ℕ) → List Bytes → ℕ
total on [] = 0
total on (track ∷ rest) = on track + total on rest

sum_qualifiers_exact :
    (network : Map ℕ) (pool : Option (Map ℕ)) (tracks : List Bytes) (n p : ℕ) (sums : ℕ × ℕ)
    → sum_qualifiers network pool tracks n p ≡ ok sums
    → (sums.0 ≡ n + total (λ t. get_or t 0 network) tracks)
      × (sums.1 ≡ p + total (pool_on pool) tracks)
unfolding sum_qualifiers
sum_qualifiers_exact network pool [] n p sums e = ground arith
sum_qualifiers_exact network pool (t ∷ rest) n p sums e = ground (
  arith,
  sum_qualifiers_exact network pool rest (n + get_or t 0 network) (p + pool_on pool t) sums,
)

divide_inv :
    (a b : Ratio) (f : Ratio)
    → divide a b ≡ ok f
    → new (a.numerator * b.denominator) (b.numerator * a.denominator) ≡ ok f
unfolding divide
divide_inv a b f e = ground arith

-- `(n + r) * r.denominator`, for a whole number `n` and a ratio `r`.
abbrev pub plus : ℕ → Ratio → ℕ
plus n r = n * r.denominator + r.numerator

whole-plus :
    (n : ℕ) (r s : Ratio)
    → IsReduced r
    → checked_add (whole n) r ≡ ok s
    → IsReduced s × IsValue s (plus n r) r.denominator
unfolding whole
whole-plus n r s hr e =
    let (reduced, value) = checked_add_exact (whole n) r s (whole-IsReduced n) hr e in
    (reduced, omega arith)

quotient_exact :
    (d a b : ℕ) (num den f : Ratio)
    → 0 < d
    → IsValue num a d
    → IsValue den b d
    → divide num den ≡ ok f
    → IsReduced f × IsValue f a b
quotient_exact d a b num den f pos ea eb e =
    let q = divide_inv num den f e in
    let (reduced, value) = new_IsReduced _ _ f q in
    (
      reduced,
      cross_trans f.numerator f.denominator _ _ a b (new_pos _ _ q) value (
          Nat.eq_of_mul-eq-mul_right d pos _ _ (
            omega (
              arith,
              ap (λ (k : ℕ). k * (den.denominator * b)) ea,
              ap (λ (k : ℕ). a * num.denominator * k) eb,
            ))),
    )

-- What a factor is, over the two sums of qualifiers and the expected addition.
abbrev pub IsFactor : ℕ → ℕ → Ratio → Ratio → Type 0
IsFactor network_q pool_q addition f =
    IsReduced f
    × (((plus network_q addition ≡ 0) × (f ≡ zero_ratio))
        ⊎ ((0 < plus network_q addition)
            × IsValue f (plus pool_q addition) (plus network_q addition)))

no_value : (r : Ratio) (b d : ℕ) → IsReduced r → IsValue r b d → r.numerator ≡ 0 → b ≡ 0
no_value r b d hr e z =
    Nat.eq_of_mul-eq-mul_right r.denominator hr.positive b 0 (sym e ∙ rw z (omega arith))

some_value : (r : Ratio) (b d : ℕ) → 0 < d → IsValue r b d → 0 < r.numerator → 0 < b
some_value r b d pos e h = let p = Nat.mul-pos h pos in grind arith

factor_over_exact :
    (network_q pool_q : ℕ) (addition den f : Ratio)
    → IsReduced addition
    → IsReduced den
    → IsValue den (plus network_q addition) addition.denominator
    → factor_over pool_q addition den ≡ ok f
    → IsFactor network_q pool_q addition f
unfolding factor_over is_zero
factor_over_exact network_q pool_q addition den f ha hd vd e = elim (Bool-cases (is_zero den)) [
  | inl z ↦
      let zero : f ≡ zero_ratio = ground arith in
      (
        subst IsReduced (sym zero) zero_ratio-IsReduced,
        inl (no_value den _ _ hd vd (ground arith), zero),
      )
  | inr nz ↦
      let e' : (checked_add (whole pool_q) addition >>= λ n. divide n den) ≡ ok f = ground arith in
      let (num, en, ed) = >>=-eq-ok (checked_add (whole pool_q) addition) _ e' in
      let (hn, vn) = whole-plus pool_q addition num ha en in
      let (hf, vf) = quotient_exact addition.denominator _ _ num den f ha.positive vn vd ed in
      (hf, inr (some_value den _ _ ha.positive vd (ground arith), vf))
]

-- A factor that is returned is in lowest terms, and is the pool's qualifiers over the network's,
-- each summed over the active tracks with nothing for a missing entry, and each with the expected
-- addition; it is zero where the lower sum is nothing.
pub projected_raw_factor_of-IsFactor :
    (c : Challenge) (pool : Option (Map ℕ)) (addition f : Ratio)
    → IsReduced addition
    → projected_raw_factor_of c pool addition ≡ ok f
    → IsFactor
        (total (λ t. get_or t 0 c.network_qualifiers_by_track) c.active_tracks)
        (total (pool_on pool) c.active_tracks)
        addition
        f
unfolding projected_raw_factor_of
projected_raw_factor_of-IsFactor c pool addition f ha e =
    let (sums, es, e') =
      >>=-eq-ok (sum_qualifiers c.network_qualifiers_by_track pool c.active_tracks 0 0) _ e in
    let (den, ed, ef) = >>=-eq-ok (checked_add (whole sums.0) addition) _ e' in
    let (n, p) =
      sum_qualifiers_exact c.network_qualifiers_by_track pool c.active_tracks 0 0 sums es in
    let (hd, vd) = whole-plus sums.0 addition den ha ed in
    let made = factor_over_exact sums.0 sums.1 addition den f ha hd vd ef in
    subst (λ x. IsFactor x (total (pool_on pool) c.active_tracks) addition f) (n ∙ Nat.zero-add _)
      (subst (λ y. IsFactor sums.0 y addition f) (p ∙ Nat.zero-add _) made)
