-- ===== src/Resolver/Queries/Cleanup/Kept.antt =====
-- A TCP worker whose query times out is kept: the entry of the query has the socket of the UDP client.
use exaproxy.Common.{
  ℕ, ◌+◌, ◌≡◌, ◌≢◌, refl, Bool, true, ◌&&◌, none, some, List, [], ◌∷◌, ◌++◌, ltb, arith, number_key,
  pair_key, nat_beq_iff, Option-cases, Bool-cases, inl, inr, sym, ap, ◌∙◌,
}
use exaproxy.Dict.{lookup, insert, remove, contains, lookup-insert, contains-insert}
use exaproxy.Resolver.Queries.{
  ResolverManager, Waiter, Entry, Query, Response, Postponed, not_found, note_query,
  extract_hostname, Started,
}
use exaproxy.Resolver.Queries.Timed.{IsStarted, raised, nothing, noted, start_resolving-IsStarted}
use exaproxy.Resolver.Queries.Cleanup.Timed.{IsExpired, gone, again, expire_entry-IsExpired}
use exaproxy.Resolver.Queries.Answers.{TcpQuery, query_tcp, new_tcp_resolver}
use exaproxy.Resolver.Queries.Cleanup.{
  Turn, drop_worker, is_udp, retry_query, expire_waiter, expire_entry,
}

-- The workers and their number are those of `m`.
abbrev KeepsWorkers : ResolverManager → Turn → Type 0
KeepsWorkers m none = Unit
KeepsWorkers m (some (answers, n)) = (n.workers ≡ m.workers) × (n.worker_count ≡ m.worker_count)

module _ (fqdn : ℕ → Bool) (longest : ℕ → ℕ) (retries time : ℕ) (e : Entry) where
  module _ (m n : ResolverManager) (same_worker : n.worker ≡ m.worker)
      (same_workers : n.workers ≡ m.workers) (same_count : n.worker_count ≡ m.worker_count)
      (udp : lookup e.sock m.workers ≡ some m.worker) where
    dropped-KeepsWorkers :
        (answers : List Response) → KeepsWorkers m (some (answers, drop_worker e n))
    dropped-KeepsWorkers answers =
        (ground (arith, nat_beq_iff m.worker.socket m.worker.socket), ground arith)

    restarted-KeepsWorkers :
        (s : Started)
        → IsStarted n time s
        → KeepsWorkers m
            (let t : Turn = elim s [ none ↦ none | some started ↦ some ([], started.1) ] in t)
    unfolding note_query
    restarted-KeepsWorkers _ raised = tt
    restarted-KeepsWorkers _ (nothing r) = (same_workers, same_count)
    restarted-KeepsWorkers _ (noted r identifier count q) = (same_workers, same_count)

    retry-KeepsWorkers :
        (w : Waiter) (q : Query) → KeepsWorkers m (retry_query fqdn longest retries time e w q n)
    retry-KeepsWorkers w q = elim (Bool-cases (ltb w.resolve_count retries && is_udp e n)) [
      | inl retried ↦ rw retried (
          restarted-KeepsWorkers _ (
            start_resolving-IsStarted fqdn longest q.client_id q.command q.decision
              (w.resolve_count + 1) (some w.identifier) 0 time n))
      | inr given_up ↦ rw given_up (dropped-KeepsWorkers (not_found q.client_id q.hostname ∷ []))
    ]

  waiter-KeepsWorkers :
      (w : Waiter) (m n : ResolverManager)
      → n.worker ≡ m.worker
      → n.workers ≡ m.workers
      → n.worker_count ≡ m.worker_count
      → lookup e.sock m.workers ≡ some m.worker
      → KeepsWorkers m (expire_waiter fqdn longest retries time e w n)
  waiter-KeepsWorkers w m n a b c udp =
      elim (Option-cases (lookup (w.w_id, w.identifier) n.resolving)) [
        | inr (q, found) ↦ rw (found, expire_waiter) (retry-KeepsWorkers m _ a b c udp w q)
        | inl missing ↦ elim (Option-cases (lookup e.sock n.sending)) [
          | inl unknown ↦
              rw (missing, unknown, expire_waiter) (dropped-KeepsWorkers m n a b c udp [])
          | inr (q, found) ↦
              rw (missing, found, expire_waiter) (retry-KeepsWorkers m _ a b c udp w q)
        ]
      ]

  expire_entry-KeepsWorkers :
      (m : ResolverManager)
      → lookup e.sock m.workers ≡ some m.worker
      → KeepsWorkers m (expire_entry fqdn longest retries time e m)
  unfolding expire_entry
  expire_entry-KeepsWorkers m udp = elim (Option-cases (lookup e.client_id m.clients)) [
    | inr (w, found) ↦
        rw (found, expire_entry)
          (waiter-KeepsWorkers w m (record m { clients = remove e.client_id m.clients }) refl refl
            refl udp)
    | inl absent ↦ rw (absent, expire_entry) (dropped-KeepsWorkers m m refl refl refl udp [])
  ]

-- What is left of a TCP query when it was made.
query_tcp_lem :
    (tcp : ℕ → TcpQuery) (time : ℕ) (t : TcpQuery) (p : Postponed) (host : ℕ) (m : ResolverManager)
    → (let n : ResolverManager = query_tcp tcp time t p host m in
        (n.workers ≡ insert t.worker.socket t.worker m.workers)
        × (n.worker ≡ m.worker)
        × (n.active
            ≡ m.active
              ++ (record { timestamp = time; client_id = p.client_id; sock = m.worker.socket }
                  ∷ [])))
unfolding note_query
query_tcp_lem tcp time t p host m = elim (Bool-cases t.all_sent) [
  | inl sent ↦ rw (sent, query_tcp) (refl, refl, refl)
  | inr more ↦ rw (more, query_tcp) (refl, refl, refl)
]

returned :
    {e : Entry} {time : ℕ} {m : ResolverManager} (t : Turn)
    → IsExpired e time m t
    → (r : List Response × ResolverManager) × (t ≡ some r)
returned _ (gone answers n a b) = ((answers, n), refl)
returned _ (again answers n w f a b c d) = ((answers, n), refl)

kept_by :
    (m : ResolverManager) (t : Turn) (r : List Response × ResolverManager)
    → KeepsWorkers m t
    → t ≡ some r
    → (r.1.workers ≡ m.workers) × (r.1.worker_count ≡ m.worker_count)
kept_by m none r h e = absurd cc
kept_by m (some (answers, n)) r h e =
    let same_one : n ≡ r.1 = cc in
    (
      sym (ap (λ (k : ResolverManager). k.workers) same_one) ∙ h.0,
      sym (ap (λ (k : ResolverManager). k.worker_count) same_one) ∙ h.1,
    )

-- A query over TCP, by a client with a socket of its own, puts an entry with the socket of the UDP client
-- in `active`; when the cleanup takes that entry, at any time and whatever the number of retries, it
-- returns, and the TCP client is still among the workers and counted as before.
pub new_tcp_resolver-expire_entry :
    (fqdn : ℕ → Bool) (longest : ℕ → ℕ) (retries later time : ℕ) (tcp : ℕ → TcpQuery)
    (p : Postponed) (host : ℕ) (m : ResolverManager)
    → extract_hostname p.command p.decision ≡ some host
    → host ≢ 0
    → lookup m.worker.socket m.workers ≡ some m.worker
    → (tcp m.created).worker.socket ≢ m.worker.socket
    → (let n : ResolverManager = (new_tcp_resolver tcp time p m).1 in
        let e : Entry = record {
          timestamp = time;
          client_id = p.client_id;
          sock = m.worker.socket;
        } in
        (n.active ≡ m.active ++ (e ∷ []))
        × ((r : List Response × ResolverManager) × (expire_entry fqdn longest retries later e n
              ≡ some r)
            × (contains (tcp m.created).worker.socket r.1.workers ≡ true)
            × (r.1.worker_count ≡ n.worker_count)))
unfolding new_tcp_resolver
new_tcp_resolver-expire_entry fqdn longest retries later time tcp p host m named full udp apart =
    let n : ResolverManager = (new_tcp_resolver tcp time p m).1 in
    let t : TcpQuery = tcp m.created in
    let made : n ≡ query_tcp tcp time t p host m = ground (arith, nat_beq_iff host 0) in
    let (workers, worker, active) = query_tcp_lem tcp time t p host m in
    let e : Entry = record { timestamp = time; client_id = p.client_id; sock = m.worker.socket } in
    let still : lookup m.worker.socket n.workers ≡ some n.worker =
      rw (made, workers, worker)
        (ground (
          arith,
          lookup-insert t.worker.socket m.worker.socket t.worker m.workers,
          nat_beq_iff t.worker.socket m.worker.socket,
        )) in
    let (r, went) =
      returned (expire_entry fqdn longest retries later e n)
        (expire_entry-IsExpired fqdn longest retries later e n) in
    let (kept, count) =
      kept_by n (expire_entry fqdn longest retries later e n) r
        (expire_entry-KeepsWorkers fqdn longest retries later e n still) went in
    (
      rw made active,
      (
        r,
        went,
        rw (kept, made, workers)
            (ground (
              arith,
              contains-insert t.worker.socket t.worker.socket t.worker m.workers,
              nat_beq_iff t.worker.socket t.worker.socket,
            )),
        count,
      ),
    )
