-- ===== src/Resolver/Cache/Tests.antt =====
-- The cache at concrete hosts.
use exaproxy.Common.{◌≡◌, refl, false, List, [], ◌∷◌, number_key}
use exaproxy.Dict.{insert, lookup, contains}
use exaproxy.Resolver.Cache.{create, cache_destination, add_host}
use exaproxy.Resolver.Cache.Filed.{IsFiled, Call, caches, after, after-IsFiled, emptying, expired}

create-IsFiled : IsFiled create
unfolding create contains lookup
create-IsFiled host = refl

-- Two hosts in one bucket, and one in the next.
abbrev calls : List Call
calls = caches 100 900 1 11 ∷ caches 102 900 2 12 ∷ caches 107 900 3 13 ∷ []

after-IsFiled_example : IsFiled (after calls create)
after-IsFiled_example = after-IsFiled calls create create-IsFiled

cached_hosts-IsFiled : IsFiled (after calls create)
cached_hosts-IsFiled = after-IsFiled calls create create-IsFiled

buckets : (after calls create).cached ≡ (1000, 1 ∷ 2 ∷ []) ∷ (1005, 3 ∷ []) ∷ []
unfolding create cache_destination add_host insert contains lookup
buckets = refl

expired_example :
    contains 2 (after (emptying 1005 9 (after calls create).cached) (after calls create)).cache
    ≡ false
unfolding create cache_destination add_host insert contains lookup
expired_example = expired 1005 9 (after calls create) cached_hosts-IsFiled refl 2
