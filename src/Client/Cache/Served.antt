-- ===== src/Client/Cache/Served.antt =====
-- crates/tig-client/src/cache.rs: which responses are served.
use tig_mining_pool_public.Common.{
  ℕ, if◌then◌else◌, ◌↔◌, ◌+◌, ◌≤◌, ◌<◌, ◌≡◌, [], ◌∷◌, Option, none, some, true, false, length, keep,
  arith, Bool-cases, inl, inr, refl, ltb, subst, sym, ap, ◌∙◌,
}
use tig_mining_pool_public.Common.Bytes.{Bytes, same, same_refl}
use tig_mining_pool_public.Common.Map.{Map, get, get-insert}
use tig_mining_pool_public.Client.Cache.{
  Caching, lasting, never, Entry, ResponseCache, look, lookup, is_live, evict, put_in, put,
}

-- The live entries survive an eviction.
get-keep :
    (now : ℕ) (k : Bytes) (e : Entry) (m : Map Entry)
    → get k m ≡ some e
    → now < e.expires_at
    → get k (keep (is_live now) m) ≡ some e
unfolding get
get-keep now k e [] h l = cc
get-keep now k e ((j, w) ∷ m) h l = elim (Bool-cases (same k j)) [
  | inl q ↦
      let p : w ≡ e = ground arith in
      let live : now < w.expires_at = subst (λ x. now < x.expires_at) (sym p) l in ground arith
  | inr q ↦ ground (arith, get-keep now k e m)
]

get-evict :
    (now : ℕ) (k : Bytes) (e : Entry) (cache : ResponseCache)
    → get k cache.entries ≡ some e
    → now < e.expires_at
    → get k (evict now cache) ≡ some e
unfolding evict
get-evict now k e cache h l = ground (arith, get-keep now k e cache.entries h l)

get-put_in :
    (instants : ℕ) (url body : Bytes) (lifetime now capacity : ℕ) (m : Map Entry) (k : Bytes)
    (e : Entry)
    → get k m ≡ some e
    → same k url ≡ false
    → get k (put_in instants url body lifetime now capacity m) ≡ some e
unfolding put_in
get-put_in instants url body lifetime now capacity m k e h d =
    ground (arith, get-insert k url (record { body = body; expires_at = now + lifetime }) m)

-- The entry that a lookup serves.
pub record IsServed (url : Bytes) (now : ℕ) (cache : ResponseCache) (body : Bytes) : Type 0 where
  pub entry : Entry
  pub stored : get url cache.entries ≡ some entry
  pub live : now < entry.expires_at
  pub told : entry.body ≡ body

lookup_live :
    (url : Bytes) (now : ℕ) (cache : ResponseCache) (e : Entry)
    → get url cache.entries ≡ some e
    → now < e.expires_at
    → lookup url now cache ≡ (cache, some e.body)
unfolding lookup
lookup_live url now cache e h l =
    let t : ltb now e.expires_at ≡ true = ground arith in rw (h, t) refl

look-IsServed :
    (url : Bytes) (now : ℕ) (cache : ResponseCache) (body : Bytes) (o : Option Entry)
    → get url cache.entries ≡ o
    → look url now cache o ≡ (cache, some body)
    → IsServed url now cache body
look-IsServed url now cache body none h e = absurd (ground arith)
look-IsServed url now cache body (some x) h e = elim (Bool-cases (ltb now x.expires_at)) [
  | inl q ↦ record { entry = x; stored = h; live = ground arith; told = ground arith }
  | inr q ↦ absurd (ground arith)
]

served_by :
    (url : Bytes) (now : ℕ) (cache : ResponseCache) {r : ResponseCache × Option Bytes}
    → lookup url now cache ≡ r
    → look url now cache (get url cache.entries) ≡ r
unfolding lookup
served_by url now cache e = e

-- A lookup serves a body exactly where an entry of the url has it and has not expired; the store is then
-- as it was.
pub lookup-IsServed :
    (url : Bytes) (now : ℕ) (cache : ResponseCache) (body : Bytes)
    → (lookup url now cache ≡ (cache, some body)) ↔ IsServed url now cache body
lookup-IsServed url now cache body = (
  λ e. look-IsServed url now cache body (get url cache.entries) refl (served_by url now cache e),
  λ h. lookup_live url now cache h.entry h.stored h.live ∙ ap (λ b. (cache, some b)) h.told,
)

-- A put leaves every live response of another url to be served as before.
pub put-keeps_live :
    (instants : ℕ) (url body : Bytes) (caching : Caching) (now later : ℕ) (cache : ResponseCache)
    (other kept : Bytes)
    → same other url ≡ false
    → now ≤ later
    → IsServed other later cache kept
    → IsServed other later (put instants url body caching now cache) kept
unfolding put
put-keeps_live instants url body never now later cache other kept d t h = h
put-keeps_live instants url body (lasting lifetime) now later cache other kept d t h = record {
  entry = h.entry;
  stored =
      get-put_in instants url body lifetime now cache.capacity (evict now cache) other h.entry
        (get-evict now other h.entry cache h.stored (omega (arith, h.live))) d;
  live = h.live;
  told = h.told;
}

get-put :
    (instants : ℕ) (url body : Bytes) (lifetime now : ℕ) (cache : ResponseCache)
    → length cache.entries < cache.capacity
    → now + lifetime < instants
    → get url (put instants url body (lasting lifetime) now cache).entries
      ≡ some (record { body = body; expires_at = now + lifetime })
unfolding put put_in evict
get-put instants url body lifetime now cache r f = ground (
  arith,
  get-insert url url (record { body = body; expires_at = now + lifetime }) cache.entries,
  same_refl url,
)

look_then :
    (url : Bytes) (later : ℕ) (cache : ResponseCache) (e : Entry)
    → get url cache.entries ≡ some e
    → (lookup url later cache).1 ≡ (if ltb later e.expires_at then some e.body else none)
unfolding lookup
look_then url later cache e h = elim (Bool-cases (ltb later e.expires_at)) [
  | inl q ↦ rw (h, q) refl
  | inr q ↦ rw (h, q) refl
]

-- A response that is put where there is room, for a lifetime that the clock can count, is served until
-- it expires, and not from then on.
pub lookup-put :
    (instants : ℕ) (url body : Bytes) (lifetime now later : ℕ) (cache : ResponseCache)
    → length cache.entries < cache.capacity
    → now + lifetime < instants
    → (lookup url later (put instants url body (lasting lifetime) now cache)).1
      ≡ (if ltb later (now + lifetime) then some body else none)
lookup-put instants url body lifetime now later cache r f =
    look_then url later (put instants url body (lasting lifetime) now cache)
      (record { body = body; expires_at = now + lifetime })
      (get-put instants url body lifetime now cache r f)
