-- ===== src/Resolver/Queries/Answers.antt =====
-- lib/exaproxy/reactor/resolver/manager.py, the TCP workers and the answers of class
-- `ResolverManager`. What a worker answers is an argument; the TCP client that is made next is
-- `tcp created`, with the identifier that it gives to its query and whether all was sent.
pub mod Timed
use exaproxy.Common.{
  ℕ, ◌-◌, ◌+◌, suc, zero, Bool, true, false, not, ◌&&◌, Option, none, some, List, [], ◌∷◌, ◌++◌,
  if◌then◌else◌, ltb, leb, number_key, pair_key, ◌==◌,
}
use exaproxy.Dict.{Dict, lookup, insert, remove, contains}
use exaproxy.Poller.Epoll.{add_read, add_write, remove_read, remove_write}
use exaproxy.Resolver.Cache.{cache_destination}
use exaproxy.Resolver.Queries.{
  ResolverManager, Query, Waiter, Entry, DnsWorker, Response, not_found, resolved, Postponed,
  Command, Decision, note_query, extract_hostname, resolve_decision,
}

-- A TCP client that is made for a query.
pub record TcpQuery : Type 0 where
  pub worker : DnsWorker
  pub identifier : ℕ
  pub all_sent : Bool

-- What `worker.getResponse` gives when it gives something.
pub record WorkerAnswer : Type 0 where
  pub identifier : Option ℕ
  pub forhost : ℕ
  pub ip : Option ℕ
  pub completed : Bool
  pub newidentifier : Option ℕ
  pub newhost : ℕ
  pub newcomplete : Bool

module _ (tcp : ℕ → TcpQuery) (time : ℕ) where
  -- The query is sent, or goes on being sent. The entry in `active` has the socket of the UDP client.
  abbrev send_query : TcpQuery → Query → ResolverManager → ResolverManager
  send_query t q m =
      if t.all_sent
      then record m {
        calls = add_read "read_resolver" t.worker.socket ∷ m.calls;
        resolving = insert (t.worker.w_id, t.identifier) q m.resolving;
      }
      else record m {
        calls = add_write "write_resolver" t.worker.socket ∷ m.calls;
        sending = insert t.worker.socket q m.sending;
      }

  abbrev pub query_tcp : TcpQuery → Postponed → ℕ → ResolverManager → ResolverManager
  query_tcp t p host m =
      let q : Query = record {
        client_id = p.client_id;
        original = host;
        hostname = host;
        command = p.command;
        decision = p.decision;
      } in
      send_query t q (
        note_query t.worker t.identifier time m.worker.socket p.resolve_count q (record m {
          workers = insert t.worker.socket t.worker m.workers;
          created = suc m.created;
        }))

  unfoldable pub new_tcp_resolver : Postponed → ResolverManager → Option ℕ × ResolverManager
  new_tcp_resolver p m = elim (extract_hostname p.command p.decision) [
    | none ↦ (none, m)
    | some host ↦
        if host == 0
        then (none, m)
        else (let t = tcp m.created in (some t.identifier, query_tcp t p host m))
  ]

  unfoldable pub begin_resolving_tcp : ℕ → Postponed → ResolverManager → Option ℕ × ResolverManager
  begin_resolving_tcp max_workers p m =
      if ltb m.worker_count max_workers
      then (let started = new_tcp_resolver p m in
          (started.0, record started.1 { worker_count = suc started.1.worker_count }))
      else (none, record m { waiting = m.waiting ++ (p ∷ []) })

  abbrev pub start_waiting : List Postponed → ResolverManager → ResolverManager
  start_waiting [] m = m
  start_waiting (p ∷ waiting) m =
      let started = new_tcp_resolver p (record m { waiting = waiting }) in
      record started.1 { worker_count = suc started.1.worker_count }

  unfoldable pub start_times : ℕ → ResolverManager → ResolverManager
  start_times zero m = m
  start_times (suc n) m = start_times n (start_waiting m.waiting m)

  unfoldable pub notify_close : ℕ → ResolverManager → ResolverManager
  notify_close max_workers m =
      let closed : ResolverManager = record m { worker_count = m.worker_count - 1 } in
      if leb max_workers m.worker_count && ltb closed.worker_count max_workers
      then start_times (max_workers - closed.worker_count) closed
      else closed

-- `self.active.remove(key)` where the key is in
unfoldable pub remove_entry : ℕ → ℕ → ℕ → List Entry → List Entry
remove_entry time client sock [] = []
remove_entry time client sock (e ∷ active) =
    if (e.timestamp == time && e.client_id == client) && e.sock == sock
    then active
    else e ∷ remove_entry time client sock active

abbrev pub Answered : Type 0
Answered = Option (Option Response × ResolverManager)

-- `if newidentifier`
abbrev pub given : Option ℕ → Option ℕ
given none = none
given (some zero) = none
given (some (suc n)) = some (suc n)

-- The query that an answer is for is taken out, and the count of its chain goes to the next query.
abbrev pub taken_resolving : ℕ → Option ℕ → ResolverManager → Option Query × ResolverManager
taken_resolving w_id none m = (none, m)
taken_resolving w_id (some identifier) m = (
  lookup (w_id, identifier) m.resolving,
  record m { resolving = remove (w_id, identifier) m.resolving },
)

abbrev chain_count : Option ℕ → ResolverManager → ℕ
chain_count none m = 0
chain_count (some identifier) m = elim (lookup identifier m.chained) [ none ↦ 0 | some n ↦ n ]

abbrev forget_chain : Option ℕ → Dict ℕ ℕ → Dict ℕ ℕ
forget_chain none chained = chained
forget_chain (some identifier) chained = remove identifier chained

abbrev pub chain : WorkerAnswer → ResolverManager → ResolverManager
chain a m =
    let left : Dict ℕ ℕ = forget_chain a.identifier m.chained in
    elim (given a.newidentifier) [
      | none ↦ record m { chained = left }
      | some new ↦ record m { chained = insert new (chain_count a.identifier m + 1) left }
    ]
