-- ===== src/Resolver/Queries/Cleanup/Timed.antt =====
-- What a turn of `cleanup` leaves: the entry that it took is for nobody any more.
use exaproxy.Common.{
  ℕ, ◌+◌, ◌≡◌, ◌≢◌, refl, Bool, false, ◌&&◌, none, some, List, [], ◌∷◌, ◌++◌, ltb, arith,
  number_key, pair_key, nat_beq_iff, ◌==◌, Option-cases, Bool-cases, inl, inr, ap, ◌∙◌,
}
use exaproxy.Dict.{lookup, insert, remove, lookup-remove}
use exaproxy.Resolver.Queries.{
  ResolverManager, Waiter, Entry, Query, Response, not_found, note_query, Started,
}
use exaproxy.Resolver.Queries.Timed.{
  IsStarted, raised, nothing, noted, start_resolving-IsStarted, start_resolving-again,
}
use exaproxy.Resolver.Queries.Cleanup.{
  Turn, drop_worker, is_udp, retry_query, expire_waiter, expire_entry,
}

-- What a turn may leave of the clients and of `active`: its client waits no longer, or it waits anew
-- since the time of the turn.
pub data IsExpired (e : Entry) (time : ℕ) (m : ResolverManager) : Turn → Type 0 where
  gone :
      (answers : List Response) (n : ResolverManager)
      → ((client : ℕ) (w : Waiter)
          → lookup client n.clients ≡ some w
          → (e.client_id == client ≡ false) × (lookup client m.clients ≡ some w))
      → n.active ≡ m.active
      → IsExpired e time m (some (answers, n))
  again :
      (answers : List Response) (n : ResolverManager) (w : Waiter) (f : Entry)
      → n.clients ≡ insert f.client_id w (remove e.client_id m.clients)
      → n.active ≡ m.active ++ (f ∷ [])
      → f.timestamp ≡ time
      → w.active_time ≡ time
      → IsExpired e time m (some (answers, n))

drop_worker_lem :
    (e : Entry) (m : ResolverManager)
    → ((drop_worker e m).clients ≡ m.clients) × ((drop_worker e m).active ≡ m.active)
drop_worker_lem e m = ground arith

module _ (fqdn : ℕ → Bool) (longest : ℕ → ℕ) (retries time : ℕ) (e : Entry) where
  removed-IsExpired :
      (m n : ResolverManager) (answers : List Response)
      → n.clients ≡ remove e.client_id m.clients
      → n.active ≡ m.active
      → IsExpired e time m (some (answers, n))
  removed-IsExpired m n answers same_clients same_active =
      gone answers n
        (λ client w found. (
          ground (arith, lookup-remove e.client_id client m.clients),
          ground (arith, lookup-remove e.client_id client m.clients),
        ))
        same_active

  -- The manager without the client of the entry, and perhaps without the query.
  module _ (m n : ResolverManager) (same_clients : n.clients ≡ remove e.client_id m.clients)
      (same_active : n.active ≡ m.active) where
    dropped-IsExpired :
        (answers : List Response) → IsExpired e time m (some (answers, drop_worker e n))
    dropped-IsExpired answers =
        removed-IsExpired m (drop_worker e n) answers ((drop_worker_lem e n).0 ∙ same_clients)
          ((drop_worker_lem e n).1 ∙ same_active)

    restarted-IsExpired :
        (s : Started)
        → s ≢ none
        → IsStarted n time s
        → IsExpired e time m
            (let t : Turn = elim s [ none ↦ none | some started ↦ some ([], started.1) ] in t)
    unfolding note_query
    restarted-IsExpired _ h raised = absurd (h refl)
    restarted-IsExpired _ h (nothing r) = removed-IsExpired m n [] same_clients same_active
    restarted-IsExpired _ h (noted r identifier count q) =
        let w : Waiter = record {
          w_id = n.worker.w_id;
          identifier = identifier;
          active_time = time;
          resolve_count = count;
        } in
        let f : Entry = record {
          timestamp = time;
          client_id = q.client_id;
          sock = n.worker.socket;
        } in
        again [] (note_query n.worker identifier time n.worker.socket count q n) w f
          (ap (insert q.client_id w) same_clients)
          (ap (λ (l : List Entry). l ++ (f ∷ [])) same_active) refl refl

    retry-IsExpired :
        (w : Waiter) (q : Query)
        → IsExpired e time m (retry_query fqdn longest retries time e w q n)
    retry-IsExpired w q = elim (Bool-cases (ltb w.resolve_count retries && is_udp e n)) [
      | inl retried ↦ rw retried (
          restarted-IsExpired _
            (start_resolving-again fqdn longest q.client_id q.command q.decision
              (w.resolve_count + 1) w.identifier 0 time n)
            (start_resolving-IsStarted fqdn longest q.client_id q.command q.decision
              (w.resolve_count + 1) (some w.identifier) 0 time n))
      | inr given_up ↦ rw given_up (dropped-IsExpired (not_found q.client_id q.hostname ∷ []))
    ]

  waiter-IsExpired :
      (w : Waiter) (m n : ResolverManager)
      → n.clients ≡ remove e.client_id m.clients
      → n.active ≡ m.active
      → IsExpired e time m (expire_waiter fqdn longest retries time e w n)
  waiter-IsExpired w m n same_clients same_active =
      elim (Option-cases (lookup (w.w_id, w.identifier) n.resolving)) [
        | inr (q, found) ↦
            rw (found, expire_waiter) (retry-IsExpired m _ same_clients same_active w q)
        | inl missing ↦ elim (Option-cases (lookup e.sock n.sending)) [
          | inl unknown ↦
              rw (missing, unknown, expire_waiter)
                (dropped-IsExpired m n same_clients same_active [])
          | inr (q, found) ↦
              rw (missing, found, expire_waiter) (retry-IsExpired m _ same_clients same_active w q)
        ]
      ]

  pub expire_entry-IsExpired :
      (m : ResolverManager) → IsExpired e time m (expire_entry fqdn longest retries time e m)
  unfolding expire_entry
  expire_entry-IsExpired m = elim (Option-cases (lookup e.client_id m.clients)) [
    | inr (w, found) ↦
        rw (found, expire_entry)
          (waiter-IsExpired w m (record m { clients = remove e.client_id m.clients }) refl refl)
    | inl absent ↦
        rw (absent, expire_entry)
          (gone [] (drop_worker e m)
            (λ client w found. (
              ground (arith, drop_worker_lem e m, nat_beq_iff e.client_id client),
              ground (arith, drop_worker_lem e m),
            ))
            (drop_worker_lem e m).1)
  ]
