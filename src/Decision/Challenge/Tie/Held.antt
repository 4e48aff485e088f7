-- ===== src/Decision/Challenge/Tie/Held.antt =====
-- crates/pool-decision/src/challenge.rs: what `lowest_factor` returns is never an empty tie.
use tig_mining_pool_public.Common.{
  ◌≡◌, ◌≢◌, refl, subst, some, none, List, [], ◌∷◌, Result, ok, err, Ordering, ◌>>=◌, map_err,
  >>=-eq-ok, ok_inj,
}
use tig_mining_pool_public.Common.Bytes.{Bytes}
use tig_mining_pool_public.Common.Map.{Map}
use tig_mining_pool_public.Decision.Ratio.{Ratio, RatioError, checked_cmp}
use tig_mining_pool_public.Decision.Challenge.{ratio}
use tig_mining_pool_public.Decision.Challenge.Tie.{
  Best, by_order, lower, lowest_from, holders_of, lowest_factor,
}

-- A lowest factor has a holder.
abbrev IsHeld : Best → Type 0
IsHeld none = Unit
IsHeld (some (low, ids)) = ids ≢ []

by_order-IsHeld :
    (id : Bytes) (f low : Ratio) (ids : List Bytes) (o : Ordering)
    → ids ≢ []
    → IsHeld (some (by_order id f low ids o))
by_order-IsHeld id f low ids Ordering.lt n = λ q. cc
by_order-IsHeld id f low [] Ordering.eq n = λ q. cc
by_order-IsHeld id f low (x ∷ ids) Ordering.eq n = λ q. cc
by_order-IsHeld id f low ids Ordering.gt n = n

lower-IsHeld :
    (id : Bytes) (f : Ratio) (best next : Best)
    → IsHeld best
    → lower id f best ≡ ok next
    → IsHeld next
unfolding lower
lower-IsHeld id f none next h e = subst IsHeld (ok_inj e) (λ q. cc)
lower-IsHeld id f (some (low, ids)) next h e =
    let (o, _, k) = >>=-eq-ok (checked_cmp f low) _ e in
    subst IsHeld (ok_inj k) (by_order-IsHeld id f low ids o h)

lowest_from-IsHeld :
    (factors : Map Ratio) (best last : Best)
    → IsHeld best
    → lowest_from factors best ≡ ok last
    → IsHeld last
unfolding lowest_from
lowest_from-IsHeld [] best last h e = subst IsHeld (ok_inj e) h
lowest_from-IsHeld ((id, f) ∷ rest) best last h e =
    let (next, k, l) = >>=-eq-ok (lower id f best) _ e in
    lowest_from-IsHeld rest next last (lower-IsHeld id f best next h k) l

pub lowest_factor-held :
    (factors : Map Ratio) (ids : List Bytes) → lowest_factor factors ≡ ok (some ids) → ids ≢ []
unfolding lowest_factor
lowest_factor-held factors ids e =
    of_best (lowest_from factors none) (λ b k. lowest_from-IsHeld factors none b tt k) e
  where
    some_inj : {x y : List Bytes} → some x ≡ some y → x ≡ y
    some_inj k = cc

    of_best :
        (r : Result RatioError Best)
        → ((b : Best) → r ≡ ok b → IsHeld b)
        → (map_err ratio r >>= λ best. ok (holders_of best)) ≡ ok (some ids)
        → ids ≢ []
    of_best (ok none) f q = cc
    of_best (ok (some (low, found))) f q = subst (λ x. x ≢ []) (some_inj (ok_inj q)) (f _ refl)
    of_best (err why) f q = cc
