-- ===== src/Http.antt =====
-- lib/exaproxy/http: what the proxy reads of a request.
pub mod Headers
pub mod Request
