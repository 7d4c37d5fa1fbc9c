-- ===== src/Dns.antt =====
-- lib/exaproxy/dns: the messages of the resolver. Name is how convert.py writes and reads a
-- name, Header the header of a message in codec.py.
pub mod Name
pub mod Header
