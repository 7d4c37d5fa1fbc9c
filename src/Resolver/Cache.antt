-- ===== src/Resolver/Cache.antt =====
-- lib/exaproxy/reactor/resolver/manager.py, `cacheDestination` and `expireCache` of class
-- `ResolverManager`, and the two fields that they change. A hostname and an address are numbers; the
-- time and the configured `ttl` and `max_entries` are arguments.
pub mod Filed
mod Tests
use exaproxy.Common.{
  ℕ, ◌+◌, ◌-◌, ◌%◌, Bool, ◌||◌, List, [], ◌∷◌, ◌++◌, if◌then◌else◌, length, ltb, leb, number_key,
}
use exaproxy.Dict.{Dict, insert, remove, contains}

abbrev pub Buckets : Type 0
Buckets = List (ℕ × List ℕ)

pub record Cache : Type 0 where
  pub cache : Dict ℕ ℕ
  pub cached : Buckets

unfoldable pub create : Cache
create = record { cache = []; cached = [] }

-- `hosts.append(hostname)` to the last bucket, or to a new one where the time is later than its own
unfoldable pub add_host : ℕ → ℕ → Buckets → Buckets
add_host expire_time host [] = (expire_time, host ∷ []) ∷ []
add_host expire_time host ((latest_time, hosts) ∷ []) =
    if ltb latest_time expire_time
    then (latest_time, hosts) ∷ ((expire_time, host ∷ []) ∷ [])
    else (latest_time, hosts ++ (host ∷ [])) ∷ []
add_host expire_time host (b ∷ c ∷ cached) = b ∷ add_host expire_time host (c ∷ cached)

unfoldable pub cache_destination : ℕ → ℕ → ℕ → ℕ → Cache → Cache
cache_destination now ttl host ip c =
    let expire_time = now + ttl - (now + ttl) % 5 in
    if contains host c.cache
    then c
    else record { cache = insert host ip c.cache; cached = add_host expire_time host c.cached }

unfoldable pub pop_all : List ℕ → Dict ℕ ℕ → Dict ℕ ℕ
pop_all [] cache = cache
pop_all (host ∷ hosts) cache = pop_all hosts (remove host cache)

abbrev pub expire_first : ℕ → ℕ → Buckets → Cache → Cache
expire_first now max_entries [] c = c
expire_first now max_entries ((expire_time, hosts) ∷ rest) c =
    if leb expire_time now || ltb max_entries (length c.cache)
    then record { cache = pop_all hosts c.cache; cached = rest }
    else c

unfoldable pub expire_cache : ℕ → ℕ → Cache → Cache
expire_cache now max_entries c = expire_first now max_entries c.cached c
