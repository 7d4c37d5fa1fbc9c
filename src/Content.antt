-- ===== src/Content.antt =====
-- lib/exaproxy/reactor/content: the connections to the servers. Worker is worker.py, Manager is
-- manager.py.
pub mod Worker
pub mod Manager
