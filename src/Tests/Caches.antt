-- ===== src/Tests/Caches.antt =====
-- A store of two responses, one of which it holds already.
use tig_mining_pool_public.Common.{◌∷◌, [], refl, arith}
use tig_mining_pool_public.Common.Bytes.{codes, cmp}
use tig_mining_pool_public.Common.Map.{get}
use tig_mining_pool_public.Client.Cache.{lasting, Entry, ResponseCache, lookup, put}
use tig_mining_pool_public.Client.Cache.Bounded.{IsBounded, lookup-put-IsBounded}
use tig_mining_pool_public.Client.Cache.Served.{IsServed}

abbrev opow : Entry
opow = record { body = codes "{}"; expires_at = 90 }

abbrev cache : ResponseCache
cache = record { entries = (codes "/get-opow", opow) ∷ []; capacity = 2 }

cache-IsBounded : IsBounded cache
cache-IsBounded = record { sorted = tt; bounded = omega arith }

cache-IsServed : IsServed (codes "/get-opow") 60 cache (codes "{}")
unfolding get cmp
cache-IsServed = record { entry = opow; stored = refl; live = omega arith; told = refl }

lookup-put-IsBounded_example :
    IsBounded (lookup (codes "/get-challenges") 50 cache).0
    × IsBounded (put 1000 (codes "/get-challenges") (codes "[]") (lasting 30) 50 cache)
lookup-put-IsBounded_example =
    lookup-put-IsBounded 1000 (codes "/get-challenges") (codes "[]") (lasting 30) 50 cache
      cache-IsBounded
