-- ===== src/Client/Cache/Bounded.antt =====
-- crates/tig-client/src/cache.rs: how many responses are stored.
use tig_mining_pool_public.Common.{
  ℕ, ◌+◌, ◌≤◌, ◌≡◌, [], ◌∷◌, Option, none, some, Bool, length, keep, arith, suc, Option-cases, not,
  ltb, Ordering, Bool-cases, inl, inr,
}
use tig_mining_pool_public.Common.Bytes.{Bytes, cmp, same, cmp-lt_trans}
use tig_mining_pool_public.Common.Map.{
  Map, get, insert, insert-IsSorted, Above, IsSorted, get-Above, Above-IsSorted,
}
use tig_mining_pool_public.Client.Cache.{
  Caching, lasting, never, Entry, ResponseCache, remove, look, lookup, is_live, evict, put_in, put,
}

module _ {V : Type 0} where
  length-keep-le : (p : Bytes × V → Bool) (m : Map V) → length (keep p m) ≤ length m
  length-keep-le p [] = omega arith
  length-keep-le p (x ∷ m) = ground (arith, length-keep-le p m)

  length-insert-le : (k : Bytes) (v : V) (m : Map V) → length (insert k v m) ≤ suc (length m)
  unfolding insert
  length-insert-le k v [] = omega arith
  length-insert-le k v ((j, w) ∷ m) = ground (arith, length-insert-le k v m)

  Above-below : (k j : Bytes) (m : Map V) → cmp k j ≡ Ordering.lt → Above j m → Above k m
  Above-below k j [] h s = tt
  Above-below k j ((i, w) ∷ m) h s = (cmp-lt_trans k j i h s.0, s.1)

  -- A key that is there is replaced.
  length-insert-has :
      (k : Bytes) (v u : V) (m : Map V)
      → IsSorted m
      → get k m ≡ some u
      → length (insert k v m) ≡ length m
  unfolding insert get
  length-insert-has k v u [] s h = cc
  length-insert-has k v u ((j, w) ∷ m) s h =
      ground
        (arith, length-insert-has k v u m, Above-IsSorted j m, get-Above k m, Above-below k j m)

  keep-Above : (p : Bytes × V → Bool) (k : Bytes) (m : Map V) → Above k m → Above k (keep p m)
  keep-Above p k [] s = tt
  keep-Above p k ((j, w) ∷ m) s = ground (arith, keep-Above p j m, Above-below k j (keep p m))

  keep-IsSorted : (p : Bytes × V → Bool) (m : Map V) → IsSorted m → IsSorted (keep p m)
  keep-IsSorted p [] s = tt
  keep-IsSorted p ((j, w) ∷ m) s =
      ground (arith, keep-Above p j m, keep-IsSorted p m, Above-IsSorted j m)

-- No more entries than the capacity, each under a key of its own.
pub record IsBounded (cache : ResponseCache) : Type 0 where
  pub sorted : IsSorted cache.entries
  pub bounded : length cache.entries ≤ cache.capacity

put_in-bounded :
    (instants : ℕ) (url body : Bytes) (lifetime now capacity : ℕ) (m : Map Entry)
    → IsSorted m
    → length m ≤ capacity
    → length (put_in instants url body lifetime now capacity m) ≤ capacity
unfolding put_in
put_in-bounded instants url body lifetime now capacity m s b = elim (Option-cases (get url m)) [
  | inl e ↦
      ground (arith, length-insert-le url (record { body = body; expires_at = now + lifetime }) m)
  | inr (u, e) ↦
      ground
        (arith, length-insert-has url (record { body = body; expires_at = now + lifetime }) u m s e)
]

put_in-IsSorted :
    (instants : ℕ) (url body : Bytes) (lifetime now capacity : ℕ) (m : Map Entry)
    → IsSorted m
    → IsSorted (put_in instants url body lifetime now capacity m)
unfolding put_in
put_in-IsSorted instants url body lifetime now capacity m s =
    ground (arith, insert-IsSorted url (record { body = body; expires_at = now + lifetime }) m s)

evict-IsSorted :
    (now : ℕ) (cache : ResponseCache) → IsSorted cache.entries → IsSorted (evict now cache)
unfolding evict
evict-IsSorted now cache s = ground (arith, keep-IsSorted (is_live now) cache.entries s)

evict-bounded :
    (now : ℕ) (cache : ResponseCache)
    → length cache.entries ≤ cache.capacity
    → length (evict now cache) ≤ cache.capacity
unfolding evict
evict-bounded now cache b = ground (arith, length-keep-le (is_live now) cache.entries)

put-IsBounded :
    (instants : ℕ) (url body : Bytes) (caching : Caching) (now : ℕ) (cache : ResponseCache)
    → IsBounded cache
    → IsBounded (put instants url body caching now cache)
unfolding put
put-IsBounded instants url body never now cache h = h
put-IsBounded instants url body (lasting lifetime) now cache h = record {
  sorted =
      put_in-IsSorted instants url body lifetime now cache.capacity (evict now cache)
        (evict-IsSorted now cache h.sorted);
  bounded =
      put_in-bounded instants url body lifetime now cache.capacity (evict now cache)
        (evict-IsSorted now cache h.sorted) (evict-bounded now cache h.bounded);
}

remove-IsBounded :
    (url : Bytes) (cache : ResponseCache)
    → IsBounded cache
    → IsBounded (record cache { entries = remove url cache.entries })
unfolding remove
remove-IsBounded url cache h = record {
  sorted = keep-IsSorted (λ e. not (same url e.0)) cache.entries h.sorted;
  bounded = omega (arith, length-keep-le (λ e. not (same url e.0)) cache.entries, h.bounded);
}

look-IsBounded :
    (url : Bytes) (now : ℕ) (cache : ResponseCache) (o : Option Entry)
    → IsBounded cache
    → IsBounded (look url now cache o).0
look-IsBounded url now cache none h = h
look-IsBounded url now cache (some e) h = elim (Bool-cases (ltb now e.expires_at)) [
  | inl q ↦ rw q h
  | inr q ↦ rw q (remove-IsBounded url cache h)
]

-- A store within its capacity, one entry to a key, stays so whatever is looked up or put in it.
pub lookup-put-IsBounded :
    (instants : ℕ) (url body : Bytes) (caching : Caching) (now : ℕ) (cache : ResponseCache)
    → IsBounded cache
    → IsBounded (lookup url now cache).0 × IsBounded (put instants url body caching now cache)
unfolding lookup
lookup-put-IsBounded instants url body caching now cache h = (
  look-IsBounded url now cache (get url cache.entries) h,
  put-IsBounded instants url body caching now cache h,
)
