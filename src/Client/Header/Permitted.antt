-- ===== src/Client/Header/Permitted.antt =====
-- crates/tig-client/src/cache.rs: what has to be said for a response to be stored.
use tig_mining_pool_public.Common.{
  ℕ, ◌<◌, ◌≡◌, ◌||◌, List, [], ◌∷◌, Option, none, some, true, false, Bool-cases, inl, inr, arith,
  In, All, refl, ◌==◌,
}
use tig_mining_pool_public.Common.Bytes.{Bytes, codes, contains, contains_iff}
use tig_mining_pool_public.Common.Words.{u64_size}
use tig_mining_pool_public.Common.Text.{
  trim, trim_start, split, split_once, strip_prefix, parse_uint,
}
use tig_mining_pool_public.Client.Cache.{lasting}
use tig_mining_pool_public.Client.Header.{
  forbids, forbidden, lifetime_of, aged, age_of, directives, caching_from_header, block_pinned,
  path_and_query_of, names_block, any_names_block, request_is_cacheable,
}

-- A directive that gives the lifetime in seconds.
pub record IsMaxAge (seconds : ℕ) (directive : Bytes) : Type 0 where
  pub value : Bytes
  pub named : strip_prefix (codes "max-age=") directive ≡ some value
  pub read : parse_uint u64_size (trim value) ≡ some seconds

lifetime_of-lasting : (n : ℕ) (o : Option ℕ) → lifetime_of o ≡ lasting n → (o ≡ some n) × (0 < n)
lifetime_of-lasting n none e = cc
lifetime_of-lasting n (some s) e = ground arith

-- Some directive of the list gives a lifetime that is not zero.
abbrev pub HasMaxAge : ℕ → List Bytes → Type 0
HasMaxAge n ds = (d : Bytes) × In d ds × IsMaxAge n d × (0 < n)

aged-HasMaxAge :
    (n : ℕ) (d : Bytes) (ds : List Bytes) (o : Option Bytes)
    → strip_prefix (codes "max-age=") d ≡ o
    → aged o (age_of ds) ≡ lasting n
    → (age_of ds ≡ lasting n → HasMaxAge n ds)
    → HasMaxAge n (d ∷ ds)
aged-HasMaxAge n d ds none q e ih = let (x, i, m, pos) = ih e in (x, inr i, m, pos)
aged-HasMaxAge n d ds (some v) q e ih =
    let (read, pos) = lifetime_of-lasting n (parse_uint u64_size (trim v)) e in
    (d, inl refl, record { value = v; named = q; read = read }, pos)

age_of-HasMaxAge : (n : ℕ) (ds : List Bytes) → age_of ds ≡ lasting n → HasMaxAge n ds
unfolding age_of
age_of-HasMaxAge n [] e = cc
age_of-HasMaxAge n (d ∷ ds) e =
    aged-HasMaxAge n d ds (strip_prefix (codes "max-age=") d) refl e (age_of-HasMaxAge n ds)

forbidden-none : (ds : List Bytes) → forbidden ds ≡ false → All (λ d. forbids d ≡ false) ds
unfolding forbidden
forbidden-none [] e = tt
forbidden-none (d ∷ ds) e = ground (arith, forbidden-none ds)

-- A response is stored for a time only where no directive of its header forbids it, and one gives
-- that time, which is not zero.
pub caching_from_header-HasMaxAge :
    (header : Bytes) (n : ℕ)
    → caching_from_header (some header) ≡ lasting n
    → HasMaxAge n (directives header) × All (λ d. forbids d ≡ false) (directives header)
unfolding caching_from_header
caching_from_header-HasMaxAge header n e = elim (Bool-cases (forbidden (directives header))) [
  | inl q ↦ absurd (ground arith)
  | inr q ↦ (age_of-HasMaxAge n (directives header) (ground arith), forbidden-none _ q)
]

-- The path and the query of a request.
abbrev pub split_request : Bytes → Bytes × Bytes
split_request request = path_and_query_of request (split_once 63 request)

-- A parameter `block_id` with a value.
pub record IsBlockId (parameter : Bytes) : Type 0 where
  pub first : ℕ
  pub rest : Bytes
  pub named : strip_prefix (codes "block_id=") parameter ≡ some (first ∷ rest)

first-IsBlockId :
    (p : Bytes) (ps : List Bytes) (o : Option Bytes)
    → strip_prefix (codes "block_id=") p ≡ o
    → (names_block o || any_names_block ps) ≡ true
    → (any_names_block ps ≡ true → (x : Bytes) × In x ps × IsBlockId x)
    → (x : Bytes) × In x (p ∷ ps) × IsBlockId x
first-IsBlockId p ps none q e ih = let (x, i, b) = ih e in (x, inr i, b)
first-IsBlockId p ps (some []) q e ih = let (x, i, b) = ih e in (x, inr i, b)
first-IsBlockId p ps (some (c ∷ v)) q e ih =
    (p, inl refl, record { first = c; rest = v; named = q })

any-IsBlockId : (ps : List Bytes) → any_names_block ps ≡ true → (p : Bytes) × In p ps × IsBlockId p
unfolding any_names_block
any-IsBlockId [] e = cc
any-IsBlockId (p ∷ ps) e =
    first-IsBlockId p ps (strip_prefix (codes "block_id=") p) refl e (any-IsBlockId ps)

-- A request is in scope only where its path, slashes at its start aside, is one of the three endpoints
-- that are pinned to a block, and a parameter of it names a block.
pub request_is_cacheable-IsBlockId :
    (request : Bytes)
    → request_is_cacheable request ≡ true
    → In (trim_start (λ c. c == 47) (split_request request).0) block_pinned
      × ((p : Bytes) × In p (split 38 (split_request request).1) × IsBlockId p)
unfolding request_is_cacheable
request_is_cacheable-IsBlockId request e =
    elim (Bool-cases
      (contains (trim_start (λ c. c == 47) (split_request request).0) block_pinned)) [
        | inl q ↦ ((contains_iff _ _).0 q, any-IsBlockId _ (ground arith))
        | inr q ↦ absurd (ground arith)
      ]
