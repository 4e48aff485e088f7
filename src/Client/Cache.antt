-- ===== src/Client/Cache.antt =====
-- crates/tig-client/src/cache.rs: the store of responses. The clock's instants are numbers below
-- `instants`, which the platform sets; a lifetime counts in the same unit.
pub mod Bounded
pub mod Served
use tig_mining_pool_public.Common.{
  ℕ, ◌+◌, List, [], ◌∷◌, Option, none, some, Bool, true, false, ◌&&◌, not, ltb, leb, if◌then◌else◌,
  length, keep,
}
use tig_mining_pool_public.Common.Bytes.{Bytes, same}
use tig_mining_pool_public.Common.Map.{Map, get, insert}
use tig_mining_pool_public.Common.Words.{checked_add}

pub data Caching : Type 0 where
  lasting : ℕ → Caching
  never : Caching

pub record Entry : Type 0 where
  pub body : Bytes
  pub expires_at : ℕ

pub record ResponseCache : Type 0 where
  pub entries : Map Entry
  pub capacity : ℕ

unfoldable pub empty_cache : ℕ → ResponseCache
empty_cache capacity = record { entries = []; capacity = capacity }

-- `HashMap::remove`
unfoldable pub remove : Bytes → Map Entry → Map Entry
remove url m = keep (λ e. not (same url e.0)) m

abbrev pub look : Bytes → ℕ → ResponseCache → Option Entry → ResponseCache × Option Bytes
look url now cache none = (cache, none)
look url now cache (some entry) =
    if ltb now entry.expires_at
    then (cache, some entry.body)
    else (record cache { entries = remove url cache.entries }, none)

unfoldable pub lookup : Bytes → ℕ → ResponseCache → ResponseCache × Option Bytes
lookup url now cache = look url now cache (get url cache.entries)

abbrev pub is_live : ℕ → Bytes × Entry → Bool
is_live now e = ltb now e.1.expires_at

-- The entries after the eviction, which takes place only where the store is full.
unfoldable pub evict : ℕ → ResponseCache → Map Entry
evict now cache =
    if leb cache.capacity (length cache.entries)
    then keep (is_live now) cache.entries
    else cache.entries

abbrev pub contains_key : Option Entry → Bool
contains_key none = false
contains_key (some e) = true

abbrev pub store : Bytes → Bytes → Option ℕ → Map Entry → Map Entry
store url body none m = m
store url body (some expires_at) m = insert url (record { body = body; expires_at = expires_at }) m

unfoldable pub put_in : ℕ → Bytes → Bytes → ℕ → ℕ → ℕ → Map Entry → Map Entry
put_in instants url body lifetime now capacity m =
    if leb capacity (length m) && not (contains_key (get url m))
    then m
    else store url body (checked_add instants now lifetime) m

unfoldable pub put : ℕ → Bytes → Bytes → Caching → ℕ → ResponseCache → ResponseCache
unfolding evict put_in
put instants url body never now cache = cache
put instants url body (lasting lifetime) now cache = record cache {
  entries = put_in instants url body lifetime now cache.capacity (evict now cache);
}
