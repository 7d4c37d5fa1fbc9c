-- ===== src/Resolver/Cache/Filed.antt =====
-- Every host that is cached stands in one bucket, and so leaves the cache with it.
use exaproxy.Common.{
  ℕ, ◌+◌, ◌-◌, ◌%◌, ◌≡◌, ◌∙◌, ap, sym, refl, Bool, true, false, ◌&&◌, List, [], ◌∷◌, if◌then◌else◌,
  leb, number_key, count, count-append, arith, nat_beq, nat_beq_iff,
}
use exaproxy.Dict.{Dict, remove, contains, contains-insert, contains-remove}
use exaproxy.Resolver.Cache.{
  Buckets, Cache, add_host, cache_destination, pop_all, expire_first, expire_cache,
}

abbrev pub filed : ℕ → Buckets → ℕ
filed host [] = 0
filed host ((expire_time, hosts) ∷ rest) = count host hosts + filed host rest

abbrev pub once : Bool → ℕ
once b = if b then 1 else 0

abbrev pub IsFiled : Cache → Type 0
IsFiled c = (host : ℕ) → filed host c.cached ≡ once (contains host c.cache)

filed-add_host :
    (host time new : ℕ) (b : Buckets)
    → filed host (add_host time new b) ≡ once (nat_beq new host) + filed host b
unfolding add_host
filed-add_host host time new [] = ground arith
filed-add_host host time new ((latest, hosts) ∷ []) =
    ground (arith, count-append host hosts (new ∷ []))
filed-add_host host time new (b ∷ c ∷ rest) = omega (arith, filed-add_host host time new (c ∷ rest))

contains-pop_all :
    (host : ℕ) (hosts : List ℕ) (d : Dict ℕ ℕ)
    → contains host (pop_all hosts d)
      ≡ (if leb 1 (count host hosts) then false else contains host d)
unfolding pop_all
contains-pop_all host [] d = refl
contains-pop_all host (h ∷ hosts) d =
    ground (
      arith,
      contains-pop_all host hosts (remove h d),
      contains-remove h host d,
      nat_beq_iff h host,
    )

cache_destination-IsFiled :
    (now ttl host ip : ℕ) (c : Cache) → IsFiled c → IsFiled (cache_destination now ttl host ip c)
unfolding cache_destination
cache_destination-IsFiled now ttl host ip c v other =
    let time = now + ttl - (now + ttl) % 5 in
    ground (
      arith,
      v other,
      v host,
      filed-add_host other time host c.cached,
      contains-insert host other ip c.cache,
      nat_beq_iff host other,
    )

expire_first-IsFiled :
    (now max_entries : ℕ) (b : Buckets) (c : Cache)
    → c.cached ≡ b
    → IsFiled c
    → IsFiled (expire_first now max_entries b c)
expire_first-IsFiled now max_entries [] c same v other = v other
expire_first-IsFiled now max_entries ((time, hosts) ∷ rest) c same v other =
    let all : count other hosts + filed other rest ≡ once (contains other c.cache) =
      ap (filed other) (sym same) ∙ v other in
    ground (arith, all, v other, contains-pop_all other hosts c.cache)

expire_cache-IsFiled :
    (now max_entries : ℕ) (c : Cache) → IsFiled c → IsFiled (expire_cache now max_entries c)
unfolding expire_cache
expire_cache-IsFiled now max_entries c v = expire_first-IsFiled now max_entries c.cached c refl v

pub data Call : Type 0 where
  caches : ℕ → ℕ → ℕ → ℕ → Call
  expires : ℕ → ℕ → Call

abbrev pub after : List Call → Cache → Cache
after [] c = c
after (caches now ttl host ip ∷ calls) c = after calls (cache_destination now ttl host ip c)
after (expires now max_entries ∷ calls) c = after calls (expire_cache now max_entries c)

-- From a cache whose hosts stand in the buckets once each, and no other host with them, any calls
-- lead to one of which the same holds.
pub after-IsFiled : (calls : List Call) (c : Cache) → IsFiled c → IsFiled (after calls c)
after-IsFiled [] c v = v
after-IsFiled (caches now ttl host ip ∷ calls) c v =
    after-IsFiled calls (cache_destination now ttl host ip c)
      (cache_destination-IsFiled now ttl host ip c v)
after-IsFiled (expires now max_entries ∷ calls) c v =
    after-IsFiled calls (expire_cache now max_entries c) (expire_cache-IsFiled now max_entries c v)

abbrev pub all_past : ℕ → Buckets → Bool
all_past now [] = true
all_past now ((expire_time, hosts) ∷ rest) = leb expire_time now && all_past now rest

-- `expireCache` once for each bucket
abbrev pub emptying : ℕ → ℕ → Buckets → List Call
emptying now max_entries [] = []
emptying now max_entries (b ∷ rest) = expires now max_entries ∷ emptying now max_entries rest

emptied :
    (now max_entries : ℕ) (b : Buckets) (c : Cache)
    → c.cached ≡ b
    → all_past now b ≡ true
    → (after (emptying now max_entries b) c).cached ≡ []
unfolding expire_cache
emptied now max_entries [] c same past = same
emptied now max_entries ((time, hosts) ∷ rest) c same past =
    let over : leb time now ≡ true = ground arith in
    let first : (expire_first now max_entries ((time, hosts) ∷ rest) c).cached ≡ rest =
      ground arith in
    emptied now max_entries rest (expire_cache now max_entries c)
      (ap (λ b. (expire_first now max_entries b c).cached) same ∙ first) (ground arith)

-- From a cache whose hosts stand in the buckets once each, once the time of every bucket has
-- passed a call of `expireCache` for each bucket leaves no host cached.
pub expired :
    (now max_entries : ℕ) (c : Cache)
    → IsFiled c
    → all_past now c.cached ≡ true
    → (host : ℕ) → contains host (after (emptying now max_entries c.cached) c).cache ≡ false
expired now max_entries c v past host =
    let calls = emptying now max_entries c.cached in
    let filed_there = after-IsFiled calls c v host in
    let none_left = ap (filed host) (emptied now max_entries c.cached c refl past) in
    ground (arith, filed_there, none_left)
