-- ===== src/Resolver/Queries/Answers/Timed.antt =====
-- The queries over TCP note their clients.
use exaproxy.Common.{
  ℕ, zero, suc, ◌-◌, ◌&&◌, List, [], ◌∷◌, ltb, leb, number_key, pair_key, ◌==◌, Option-cases,
  Bool-cases, inl, inr,
}
use exaproxy.Dict.{insert}
use exaproxy.Resolver.Queries.{ResolverManager, DnsWorker, Postponed, extract_hostname}
use exaproxy.Resolver.Queries.Timed.{IsTimed, note_query-IsTimed}
use exaproxy.Resolver.Queries.Answers.{
  TcpQuery, query_tcp, new_tcp_resolver, begin_resolving_tcp, start_waiting, start_times,
  notify_close,
}
use exaproxy.Resolver.Queries.Responses.{close_worker}

module _ (tcp : ℕ → TcpQuery) (time : ℕ) where
  pub query_tcp-IsTimed :
      (t : TcpQuery) (p : Postponed) (host : ℕ) (m : ResolverManager)
      → IsTimed m
      → IsTimed (query_tcp tcp time t p host m)
  query_tcp-IsTimed t p host m timed =
      let noted_one =
        note_query-IsTimed t.worker t.identifier time m.worker.socket p.resolve_count
          (record {
            client_id = p.client_id;
            original = host;
            hostname = host;
            command = p.command;
            decision = p.decision;
          })
          (record m {
            workers = insert t.worker.socket t.worker m.workers;
            created = suc m.created;
          })
          timed in
      elim (Bool-cases t.all_sent) [
        | inl sent ↦ rw (sent, query_tcp) noted_one
        | inr more ↦ rw (more, query_tcp) noted_one
      ]

  pub new_tcp_resolver-IsTimed :
      (p : Postponed) (m : ResolverManager) → IsTimed m → IsTimed (new_tcp_resolver tcp time p m).1
  unfolding new_tcp_resolver
  new_tcp_resolver-IsTimed p m timed = elim (Option-cases (extract_hostname p.command p.decision)) [
    | inl without ↦ rw (without, new_tcp_resolver) timed
    | inr (host, named) ↦ elim (Bool-cases (host == 0)) [
      | inl empty ↦ rw (named, empty, new_tcp_resolver) timed
      | inr full ↦
          rw (named, full, new_tcp_resolver) (query_tcp-IsTimed (tcp m.created) p host m timed)
    ]
  ]

  pub begin_resolving_tcp-IsTimed :
      (max_workers : ℕ) (p : Postponed) (m : ResolverManager)
      → IsTimed m
      → IsTimed (begin_resolving_tcp tcp time max_workers p m).1
  unfolding begin_resolving_tcp
  begin_resolving_tcp-IsTimed max_workers p m timed =
      elim (Bool-cases (ltb m.worker_count max_workers)) [
        | inl room ↦ rw (room, begin_resolving_tcp) (new_tcp_resolver-IsTimed p m timed)
        | inr full ↦ rw (full, begin_resolving_tcp) timed
      ]

  pub start_waiting-IsTimed :
      (waiting : List Postponed) (m : ResolverManager)
      → IsTimed m
      → IsTimed (start_waiting tcp time waiting m)
  start_waiting-IsTimed [] m timed = timed
  start_waiting-IsTimed (p ∷ waiting) m timed =
      new_tcp_resolver-IsTimed p (record m { waiting = waiting }) timed

  pub start_times-IsTimed :
      (n : ℕ) (m : ResolverManager) → IsTimed m → IsTimed (start_times tcp time n m)
  unfolding start_times
  start_times-IsTimed zero m timed = timed
  start_times-IsTimed (suc n) m timed =
      start_times-IsTimed n (start_waiting tcp time m.waiting m)
        (start_waiting-IsTimed m.waiting m timed)

  pub notify_close-IsTimed :
      (max_workers : ℕ) (m : ResolverManager)
      → IsTimed m
      → IsTimed (notify_close tcp time max_workers m)
  unfolding notify_close
  notify_close-IsTimed max_workers m timed =
      let closed : ResolverManager = record m { worker_count = m.worker_count - 1 } in
      elim (Bool-cases (leb max_workers m.worker_count && ltb closed.worker_count max_workers)) [
        | inl paused ↦
            rw (paused, notify_close)
              (start_times-IsTimed (max_workers - closed.worker_count) closed timed)
        | inr going ↦ rw (going, notify_close) timed
      ]

  pub close_worker-IsTimed :
      (max_workers sock : ℕ) (w : DnsWorker) (m : ResolverManager)
      → IsTimed m
      → IsTimed (close_worker tcp time max_workers sock w m)
  close_worker-IsTimed max_workers sock w m timed =
      elim (Bool-cases (w.socket == m.worker.socket)) [
        | inl udp ↦ rw udp timed
        | inr other ↦ rw other (notify_close-IsTimed max_workers _ timed)
      ]
