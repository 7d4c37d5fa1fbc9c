-- ===== src/Poller.antt =====
-- lib/exaproxy/network/async: the sockets that the reactor waits on. Epoll is epoll.py, Asked reads
-- what a sequence of calls asks of a poller.
pub mod Epoll
pub mod Select
pub mod Kqueue
pub mod Answered
pub mod Asked
pub mod Tests
pub mod Seats
pub mod Equal
