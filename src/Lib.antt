-- ===== src/Lib.antt =====
-- ExaProxy, a forward proxy in Python. A client connects to a socket that the reactor's poller watches
-- (lib/exaproxy/network/async); the client manager reads its request (lib/exaproxy/reactor/client),
-- the redirector manager has one of its workers decide what becomes of it
-- (lib/exaproxy/reactor/redirector), a hostname is resolved, and the content manager fetches the content
-- from a server, or makes it locally, and hands it back to the client (lib/exaproxy/reactor/content).
-- The managers share the poller: they add, cork and remove the sockets that it watches by name.
--
-- The files and the code:
--   Common: names passed on from the libraries; Boolean tests, lists measured by native numbers, and
--     `Key`, the equality of a dictionary's keys. Dict: Python's dictionaries and sets.
--   Poller/Epoll: lib/exaproxy/network/async/epoll.py, class EPoller. One `Channel` for a name: its
--     sockets, those that are corked, and what the kernel was asked to register. `add` is addReadSocket and
--     addWriteSocket, `take_out` is removeReadSocket and removeWriteSocket, and `cork`, `uncork`,
--     `clear_read` and `clear_write` go by their names. A call of the kernel that would raise is a
--     `fault`. Poller/Epoll/Polling is `poll`. Poller/Asked: what a list of calls asks of a poller, for
--     the managers. Poller/Seats: what every poller promises, a socket under a name being out, polled or
--     held back, with no tables.
--   Poller/Select: lib/exaproxy/network/async/selectpoll.py. Poller/Kqueue:
--     lib/exaproxy/network/async/kqueue.py, which shares the records of the epoll poller; an event is
--     registered for one filter, for reading or for writing. Poller/Equal runs the select poller beside the epoll poller.
--   Util/TimeCache: lib/exaproxy/util/cache.py; the generator `expired` is a state and one `next`.
--   Client/Manager: lib/exaproxy/reactor/client/manager.py. What a client object answers is an argument.
--   Client/Http: lib/exaproxy/reactor/client/http.py, how requests are searched (`checkRequest`) and
--     chunks measured (`checkChunkSize`); Client/Http/Relay: the loop of `_read`, a turn at a time.
--   Client/Writer: the coroutine `_write`, as it stands in http.py; Client/Respond, Client/Http/Respond:
--     `startData`. Client/Passthrough: lib/exaproxy/reactor/client/passthrough.py. Util/Proxy:
--     lib/exaproxy/util/proxy.py. Util/MessageBox: lib/exaproxy/util/messagebox.py, `put` and `read`.
--   Http/Headers: lib/exaproxy/http/headers.py, the container; Http/Headers/Parse: `parse` where it is
--     transparent; Http/Headers/Forwarded: what it takes out where it is not. Http/Request:
--     lib/exaproxy/http/request.py, the URI.
--   Redirector/Manager: lib/exaproxy/reactor/redirector/manager.py. The forks, the element that
--     `set.pop` takes and what a worker decides are parameters.
--   Content/Worker: lib/exaproxy/reactor/content/worker.py. Content/Manager:
--     lib/exaproxy/reactor/content/manager.py; the host lookups and the configuration are parameters.
--   Tls/Hello: lib/exaproxy/tls/decode.py. Tls/Client: `checkRequest` of
--     lib/exaproxy/reactor/client/tls.py, and the reads up to the hello; Tls/Client/Relay: all of `_read`.
--   Dns/Name: lib/exaproxy/dns/convert.py, how names are written and read. Dns/Header: `DNSHeader` of
--     lib/exaproxy/dns/codec.py.
--   Resolver/Cache: lib/exaproxy/reactor/resolver/manager.py, `cacheDestination` and `expireCache`.
--     Resolver/Queries: the clients that wait and the queries under way, with `startResolving`;
--     Resolver/Queries/Cleanup: `cleanup`; Resolver/Queries/Answers: the TCP workers (`newTCPResolver`,
--     `beginResolvingTCP`, `notifyClose`); Resolver/Queries/Responses: `getResponse`, `continueSending`.
--
-- Conventions: a manager is a record, its methods are functions that give the new record; calls on the
-- poller are kept in a list, newest first; a socket is the number of its descriptor, bytes are numbers,
-- and times and what the operating system answers are arguments. Counters that only statistics read
-- are left out where no method reads them.
--
-- Bounds: the ids of redirector workers wrap at `sys.maxint`, 2 ^ 63 - 1; theorems that need fresh ids
-- say how many must be left. The loops over extensions and names of a hello, over chunks, over labels,
-- and of `acquire` have the length of what they read for fuel, and each turn takes at least one element.
-- The loop over the pointers of a DNS name takes its fuel as an argument. `cleanup` has one turn more than
-- `active` has entries: what a turn appends is too new for the loop.
--
-- Not modelled: the workers of the resolver and the records of DNS messages, the ICAP
-- client, ICAP messages, HTTP messages but their headers and URIs, the workers' own decisions, the loop of
-- the reactor; and the input and output of the process, logs, pages and configuration.
pub mod Common
pub mod Dict
pub mod Poller
pub mod Util
pub mod Client
pub mod Content
pub mod Redirector
pub mod Tls
pub mod Dns
pub mod Resolver
pub mod Http
