-- ===== src/Redirector.antt =====
-- lib/exaproxy/reactor/redirector: the worker processes that decide what becomes of a request.
-- Manager is manager.py.
pub mod Manager
