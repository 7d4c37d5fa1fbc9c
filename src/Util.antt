-- ===== src/Util.antt =====
-- lib/exaproxy/util: the containers and channels that the other parts share.
pub mod TimeCache
pub mod Proxy
pub mod MessageBox
