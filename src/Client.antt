-- ===== src/Client.antt =====
-- lib/exaproxy/reactor/client: the connections of the clients. Manager is manager.py.
pub mod Http
pub mod Manager
pub mod Writer
pub mod Respond
pub mod Passthrough
