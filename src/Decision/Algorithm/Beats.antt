-- ===== src/Decision/Algorithm/Beats.antt =====
-- crates/pool-decision/src/algorithm.rs: the order in which one rate of a track comes before another.
use tig_mining_pool_public.Common.{
  ◌*◌, ◌∙◌, ◌≡◌, ◌⊎◌, inl, inr, sym, subst, true, ltb, Bool-cases, not_gt, some, none, arith,
}
use tig_mining_pool_public.Common.Bytes.{Bytes, cmp, cmp-not_gt_trans}
use tig_mining_pool_public.Decision.Ratio.{Ratio}
use tig_mining_pool_public.Decision.Ratio.Exact.{IsReduced}
use tig_mining_pool_public.Decision.Ratio.Order.{Le_trans, Lt}
use tig_mining_pool_public.Decision.Algorithm.Rates.{Best}

-- The greater rate, and of equal ones the smaller id.
abbrev pub Beats : Bytes → Ratio → Bytes → Ratio → Type 0
Beats id r k g = Lt g r ⊎ ((g ≡ r) × (not_gt (cmp id k) ≡ true))

abbrev pub IsTop : (Bytes → Ratio → Type 0) → Best → Type 0
IsTop Offered none = (k : Bytes) (g : Ratio) → ¬ Offered k g
IsTop Offered (some (id, r)) =
    Offered id r × IsReduced r × ((k : Bytes) (g : Ratio) → Offered k g → Beats id r k g)

Beats-trans :
    (a b c : Bytes) (r s t : Ratio) → IsReduced t → Beats a r b s → Beats b s c t → Beats a r c t
Beats-trans a b c r s t ht (inl p) (inl q) =
    inl (elim (Bool-cases (ltb (t.numerator * r.denominator) (r.numerator * t.denominator))) [
      | inl lt ↦ ground arith
      | inr ge ↦
          let le = Le_trans r t s ht.positive (ground arith) (omega arith) in absurd (omega arith)
    ])
Beats-trans a b c r s t ht (inl p) (inr (e, q)) = inl (subst (λ x. Lt x r) (sym e) p)
Beats-trans a b c r s t ht (inr (d, p)) (inl q) = inl (subst (Lt t) d q)
Beats-trans a b c r s t ht (inr (d, p)) (inr (e, q)) = inr (e ∙ d, cmp-not_gt_trans a b c p q)

-- A candidate that another one beats changes nothing.
pub drop_beaten :
    (P Q : Bytes → Ratio → Type 0) (wid lid : Bytes) (w l : Ratio) (out : Best)
    → IsReduced l
    → Beats wid w lid l
    → P wid w
    → ((k : Bytes) (g : Ratio) → P k g → Q k g)
    → ((k : Bytes) (g : Ratio) → Q k g → P k g ⊎ ((k ≡ lid) × (g ≡ l)))
    → IsTop P out
    → IsTop Q out
drop_beaten P Q wid lid w l none hl b pw up down top = absurd (top wid w pw)
drop_beaten P Q wid lid w l (some (id, r)) hl b pw up down (o, hr, top) = (
  up id r o,
  hr,
  λ k g q. elim (down k g q) [
    | inl p ↦ top k g p
    | inr (d, e) ↦ rw (d, e) (Beats-trans id wid lid r w l hl (top wid w pw) b)
  ],
)

pub same_offers :
    (P Q : Bytes → Ratio → Type 0) (out : Best)
    → ((k : Bytes) (g : Ratio) → P k g → Q k g)
    → ((k : Bytes) (g : Ratio) → Q k g → P k g)
    → IsTop P out
    → IsTop Q out
same_offers P Q none up down top = λ k g q. top k g (down k g q)
same_offers P Q (some (id, r)) up down (o, hr, top) = (up id r o, hr, λ k g q. top k g (down k g q))
