-- ===== src/Client/Header.antt =====
-- crates/tig-client/src/cache.rs: what the server's header and the request permit to be stored.
pub mod Permitted
use tig_mining_pool_public.Common.{
  ℕ, List, [], ◌∷◌, Option, none, some, Bool, true, false, ◌||◌, not, ◌==◌, if◌then◌else◌, map, ◌≡◌,
  ◌<◌, arith,
}
use tig_mining_pool_public.Common.Bytes.{Bytes, codes, same, contains}
use tig_mining_pool_public.Common.Words.{u64_size}
use tig_mining_pool_public.Common.Text.{
  to_ascii_lowercase, split, trim, trim_start, strip_prefix, split_once, parse_uint,
}
use tig_mining_pool_public.Client.Cache.{Caching, lasting, never}

abbrev pub forbids : Bytes → Bool
forbids directive = same directive (codes "no-store") || same directive (codes "no-cache")

unfoldable pub forbidden : List Bytes → Bool
forbidden [] = false
forbidden (directive ∷ rest) = forbids directive || forbidden rest

abbrev pub lifetime_of : Option ℕ → Caching
lifetime_of none = never
lifetime_of (some seconds) = if seconds == 0 then never else lasting seconds

abbrev pub aged : Option Bytes → Caching → Caching
aged none later = later
aged (some value) later = lifetime_of (parse_uint u64_size (trim value))

-- The first `max-age` decides.
unfoldable pub age_of : List Bytes → Caching
age_of [] = never
age_of (directive ∷ rest) = aged (strip_prefix (codes "max-age=") directive) (age_of rest)

unfoldable pub directives : Bytes → List Bytes
directives header = map trim (split 44 (to_ascii_lowercase header))

unfoldable pub caching_from_header : Option Bytes → Caching
caching_from_header none = never
caching_from_header (some header) =
    if forbidden (directives header) then never else age_of (directives header)

abbrev pub block_pinned : List Bytes
block_pinned = codes "get-challenges" ∷ codes "get-algorithms" ∷ codes "get-opow" ∷ []

abbrev pub path_and_query_of : Bytes → Option (Bytes × Bytes) → Bytes × Bytes
path_and_query_of whole none = (whole, [])
path_and_query_of whole (some parts) = parts

abbrev pub names_block : Option Bytes → Bool
names_block none = false
names_block (some []) = false
names_block (some (c ∷ value)) = true

unfoldable pub any_names_block : List Bytes → Bool
any_names_block [] = false
any_names_block (p ∷ rest) =
    names_block (strip_prefix (codes "block_id=") p) || any_names_block rest

unfoldable pub request_is_cacheable : Bytes → Bool
request_is_cacheable path_and_query =
    let parts = path_and_query_of path_and_query (split_once 63 path_and_query) in
    if contains (trim_start (λ c. c == 47) parts.0) block_pinned
    then any_names_block (split 38 parts.1)
    else false
