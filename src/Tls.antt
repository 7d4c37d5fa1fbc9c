-- ===== src/Tls.antt =====
-- lib/exaproxy/tls and the TLS client of lib/exaproxy/reactor/client: the name of the server that a
-- client hello asks for, and how a hello is read.
pub mod Hello
pub mod Client
