-- ===== src/Resolver.antt =====
-- lib/exaproxy/reactor/resolver: the resolution of hostnames. Cache is the cache of manager.py.
pub mod Cache
pub mod Queries
