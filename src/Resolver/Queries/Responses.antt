-- ===== src/Resolver/Queries/Responses.antt =====
-- lib/exaproxy/reactor/resolver/manager.py, `getResponse` and `continueSending` of class
-- `ResolverManager`. `none` as a whole result is an exception that leaves the method.
pub mod Timed
use exaproxy.Common.{
  ℕ, zero, suc, Bool, true, false, not, ◌||◌, Option, none, some, List, [], ◌∷◌, if◌then◌else◌,
  number_key, pair_key, ◌==◌,
}
use exaproxy.Dict.{Dict, lookup, insert, remove, contains}
use exaproxy.Poller.Epoll.{add_read, add_write, remove_read, remove_write}
use exaproxy.Resolver.Cache.{cache_destination}
use exaproxy.Resolver.Queries.{
  ResolverManager, Query, Waiter, Entry, DnsWorker, Response, not_found, Postponed, note_query,
  resolve_decision,
}
use exaproxy.Resolver.Queries.Answers.{
  TcpQuery, WorkerAnswer, begin_resolving_tcp, notify_close, remove_entry, Answered, given,
  taken_resolving, chain,
}

-- The client that an answer is for waits no longer, and its entry is taken out of `active`.
abbrev pub forget_client : DnsWorker → ℕ → ResolverManager → ResolverManager
forget_client w client m = elim (lookup client m.clients) [
  | none ↦ record m { clients = remove client m.clients }
  | some c ↦ record m {
    clients = remove client m.clients;
    active = remove_entry c.active_time client w.socket m.active;
  }
]

-- A worker that started another query for the client reads on, or first goes on sending.
abbrev pub go_on : DnsWorker → WorkerAnswer → Query → ResolverManager → ResolverManager
go_on w a q m =
    if a.newcomplete
    then record m { calls = add_read "read_resolver" w.socket ∷ m.calls }
    else record m {
      calls = add_write "write_resolver" w.socket ∷ m.calls;
      sending = insert w.socket q m.sending;
    }

-- `if worker is not self.worker`, for a worker that has answered or is at its end
abbrev pub close_worker : (ℕ → TcpQuery) → ℕ → ℕ → ℕ → DnsWorker → ResolverManager → ResolverManager
close_worker tcp time max_workers sock w m =
    if w.socket == m.worker.socket
    then m
    else notify_close tcp time max_workers (record m {
      calls = remove_write "write_resolver" sock ∷ remove_read "read_resolver" sock ∷ m.calls;
      workers = remove sock m.workers;
    })

module _ (tcp : ℕ → TcpQuery) (time ttl max_workers : ℕ) (w : DnsWorker) (a : WorkerAnswer)
    (q : Query) where
  -- maybe we read the wrong response?
  abbrev pub wait_again : Option Waiter → ResolverManager → Answered
  wait_again none m = none
  wait_again (some c) m = elim a.identifier [
    | none ↦ none
    | some i ↦ some (none, note_query w i time w.socket c.resolve_count q m)
  ]

  abbrev pub found_address : Option ℕ → ResolverManager → Answered
  found_address none m = some (some (not_found q.client_id q.hostname), m)
  found_address (some ip) m = elim (resolve_decision q.client_id q.command q.decision ip) [
    | none ↦ none
    | some r ↦ some (some r, record m { cache = cache_destination time ttl q.original ip m.cache })
  ]

  -- An answer that is whole: another query was started, or it is for another host, or it is the end.
  abbrev pub complete_answer : Option Waiter → ResolverManager → Answered
  complete_answer c m = elim (given a.newidentifier) [
    | some new ↦
        some (
          none,
          go_on w a q (note_query w new time w.socket 1 (record q { hostname = a.newhost }) m),
        )
    | none ↦ if not (a.forhost == q.hostname) then wait_again c m else found_address a.ip m
  ]

  -- An answer that is not whole is asked for over TCP.
  abbrev pub postponed : Postponed
  postponed = record {
    client_id = q.client_id;
    command = q.command;
    decision = q.decision;
    resolve_count = 1;
  }

  unfoldable pub answer_query : ResolverManager → Answered
  answer_query m =
      let n : ResolverManager = forget_client w q.client_id m in
      if a.completed
      then complete_answer (lookup q.client_id m.clients) n
      else some (none, (begin_resolving_tcp tcp time max_workers postponed n).1)

module _ (tcp : ℕ → TcpQuery) (time ttl max_workers sock : ℕ) where
  abbrev pub close_answered : DnsWorker → Answered → Answered
  close_answered w none = none
  close_answered w (some (none, m)) = some (none, m)
  close_answered w (some (some r, m)) = some (some r, close_worker tcp time max_workers sock w m)

  abbrev pub worker_answer : DnsWorker → Option WorkerAnswer → ResolverManager → Answered
  worker_answer w none m = some (none, close_worker tcp time max_workers sock w m)
  worker_answer w (some a) m =
      let taken = taken_resolving w.w_id a.identifier m in
      elim taken.0 [
        | none ↦ some (none, chain a taken.1)
        | some q ↦ close_answered w (answer_query tcp time ttl max_workers w a q (chain a taken.1))
      ]

  unfoldable pub get_response : Option WorkerAnswer → ResolverManager → Answered
  get_response result m = elim (lookup sock m.workers) [
    | none ↦ some (none, m)
    | some w ↦ worker_answer w result m
  ]

-- `res is False` of the worker's continueSending: all was sent.
abbrev pub sent_whole : ℕ → ResolverManager → ResolverManager
sent_whole sock m =
    let n : ResolverManager = record m { calls = remove_write "write_resolver" sock ∷ m.calls } in
    elim (lookup sock m.sending) [
      | none ↦ n
      | some q ↦ elim (lookup q.client_id m.clients) [
        | none ↦ n
        | some c ↦ record m {
          sending = remove sock m.sending;
          resolving = insert (c.w_id, c.identifier) q m.resolving;
          calls = add_read "read_resolver" sock ∷ remove_write "write_resolver" sock ∷ m.calls;
        }
      ]
    ]

unfoldable pub continue_sending : ℕ → Bool → ResolverManager → Option ResolverManager
continue_sending sock all_sent m = elim (lookup sock m.workers) [
  | none ↦ none
  | some w ↦ some (if all_sent then sent_whole sock m else m)
]
