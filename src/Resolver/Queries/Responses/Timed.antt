-- ===== src/Resolver/Queries/Responses/Timed.antt =====
-- An answer leaves a client that waits on with its entry.
use exaproxy.Common.{
  ℕ, ◌≡◌, refl, false, Option, none, some, List, [], ◌∷◌, arith, number_key, pair_key, nat_beq,
  nat_beq_iff, ◌==◌, Option-cases, Bool-cases, inl, inr,
}
use exaproxy.Dict.{lookup, lookup-remove}
use exaproxy.Resolver.Queries.{ResolverManager, Waiter, Entry, Query, DnsWorker, resolve_decision}
use exaproxy.Resolver.Queries.Timed.{has_entry, IsTimed, note_query-IsTimed}
use exaproxy.Resolver.Queries.Answers.{
  TcpQuery, WorkerAnswer, remove_entry, Answered, given, taken_resolving, chain,
}
use exaproxy.Resolver.Queries.Responses.{
  forget_client, go_on, wait_again, found_address, complete_answer, answer_query, close_answered,
  worker_answer, get_response, sent_whole, postponed,
}
use exaproxy.Resolver.Queries.Answers.Timed.{begin_resolving_tcp-IsTimed, close_worker-IsTimed}

pub remove_entry-other :
    (time client sock since other : ℕ) (l : List Entry)
    → nat_beq client other ≡ false
    → has_entry since other (remove_entry time client sock l) ≡ has_entry since other l
unfolding remove_entry has_entry
remove_entry-other time client sock since other [] h = refl
remove_entry-other time client sock since other (e ∷ l) h = ground (
  arith,
  remove_entry-other time client sock since other l h,
  nat_beq_iff e.client_id client,
  nat_beq_iff e.client_id other,
  nat_beq_iff client other,
)

pub forget_client-IsTimed :
    (w : DnsWorker) (client : ℕ) (m : ResolverManager)
    → IsTimed m
    → IsTimed (forget_client w client m)
forget_client-IsTimed w client m timed = elim (Option-cases (lookup client m.clients)) [
  | inl absent ↦
      rw (absent, forget_client)
        λ other v found. ground (arith, lookup-remove client other m.clients, timed other v)
  | inr (c, present) ↦
      rw (present, forget_client)
        λ other v found. ground (
          arith,
          lookup-remove client other m.clients,
          timed other v,
          remove_entry-other c.active_time client w.socket v.active_time other m.active,
        )
]

abbrev pub TimedAnswer : Answered → Type 0
TimedAnswer none = Unit
TimedAnswer (some (r, m)) = IsTimed m

pub go_on-IsTimed :
    (w : DnsWorker) (a : WorkerAnswer) (q : Query) (m : ResolverManager)
    → IsTimed m
    → IsTimed (go_on w a q m)
go_on-IsTimed w a q m timed = elim (Bool-cases a.newcomplete) [
  | inl whole ↦ rw (whole, go_on) timed
  | inr more ↦ rw (more, go_on) timed
]

module _ (tcp : ℕ → TcpQuery) (time ttl max_workers : ℕ) (w : DnsWorker) (a : WorkerAnswer)
    (q : Query) where
  pub wait_again-TimedAnswer :
      (c : Option Waiter) (m : ResolverManager)
      → IsTimed m
      → TimedAnswer (wait_again tcp time ttl max_workers w a q c m)
  wait_again-TimedAnswer none m timed = tt
  wait_again-TimedAnswer (some c) m timed = elim (Option-cases a.identifier) [
    | inl unknown ↦ rw (unknown, wait_again) tt
    | inr (i, known) ↦
        rw (known, wait_again) (note_query-IsTimed w i time w.socket c.resolve_count q m timed)
  ]

  pub found_address-TimedAnswer :
      (ip : Option ℕ) (m : ResolverManager)
      → IsTimed m
      → TimedAnswer (found_address tcp time ttl max_workers w a q ip m)
  found_address-TimedAnswer none m timed = timed
  found_address-TimedAnswer (some ip) m timed =
      elim (Option-cases (resolve_decision q.client_id q.command q.decision ip)) [
        | inl wrong ↦ rw (wrong, found_address) tt
        | inr (r, found) ↦ rw (found, found_address) timed
      ]

  pub complete_answer-TimedAnswer :
      (c : Option Waiter) (m : ResolverManager)
      → IsTimed m
      → TimedAnswer (complete_answer tcp time ttl max_workers w a q c m)
  complete_answer-TimedAnswer c m timed = elim (Option-cases (given a.newidentifier)) [
    | inr (new, started) ↦
        rw (started, complete_answer)
          (go_on-IsTimed w a q _
            (note_query-IsTimed w new time w.socket 1 (record q { hostname = a.newhost }) m timed))
    | inl nothing_new ↦ elim (Bool-cases (a.forhost == q.hostname)) [
      | inl right ↦
          rw (nothing_new, right, complete_answer) (found_address-TimedAnswer a.ip m timed)
      | inr wrong ↦ rw (nothing_new, wrong, complete_answer) (wait_again-TimedAnswer c m timed)
    ]
  ]

  pub answer_query-TimedAnswer :
      (m : ResolverManager)
      → IsTimed m
      → TimedAnswer (answer_query tcp time ttl max_workers w a q m)
  unfolding answer_query
  answer_query-TimedAnswer m timed =
      let n : ResolverManager = forget_client w q.client_id m in
      let left : IsTimed n = forget_client-IsTimed w q.client_id m timed in
      elim (Bool-cases a.completed) [
        | inl whole ↦
            rw (whole, answer_query)
              (complete_answer-TimedAnswer (lookup q.client_id m.clients) n left)
        | inr part ↦
            rw (part, answer_query)
              (begin_resolving_tcp-IsTimed tcp time max_workers
                (postponed tcp time ttl max_workers w a q) n left)
      ]

module _ (tcp : ℕ → TcpQuery) (time ttl max_workers sock : ℕ) where
  pub close_answered-TimedAnswer :
      (w : DnsWorker) (o : Answered)
      → TimedAnswer o
      → TimedAnswer (close_answered tcp time ttl max_workers sock w o)
  close_answered-TimedAnswer w none h = tt
  close_answered-TimedAnswer w (some (none, m)) h = h
  close_answered-TimedAnswer w (some (some r, m)) h =
      close_worker-IsTimed tcp time max_workers sock w m h

  pub chain-IsTimed : (a : WorkerAnswer) (m : ResolverManager) → IsTimed m → IsTimed (chain a m)
  chain-IsTimed a m timed = elim (Option-cases (given a.newidentifier)) [
    | inl nothing_new ↦ rw (nothing_new, chain) timed
    | inr (new, started) ↦ rw (started, chain) timed
  ]

  pub taken-IsTimed :
      (w_id : ℕ) (i : Option ℕ) (m : ResolverManager)
      → IsTimed m
      → IsTimed (taken_resolving w_id i m).1
  taken-IsTimed w_id none m timed = timed
  taken-IsTimed w_id (some i) m timed = timed

  pub worker_answer-TimedAnswer :
      (w : DnsWorker) (a : Option WorkerAnswer) (m : ResolverManager)
      → IsTimed m
      → TimedAnswer (worker_answer tcp time ttl max_workers sock w a m)
  worker_answer-TimedAnswer w none m timed =
      close_worker-IsTimed tcp time max_workers sock w m timed
  worker_answer-TimedAnswer w (some a) m timed =
      let taken = taken_resolving w.w_id a.identifier m in
      let left : IsTimed (chain a taken.1) =
        chain-IsTimed a taken.1 (taken-IsTimed w.w_id a.identifier m timed) in
      elim (Option-cases taken.0) [
        | inl unknown ↦ rw (unknown, worker_answer) left
        | inr (q, found) ↦
            rw (found, worker_answer)
              (close_answered-TimedAnswer w _
                (answer_query-TimedAnswer tcp time ttl max_workers w a q (chain a taken.1) left))
      ]

  pub get_response-TimedAnswer :
      (result : Option WorkerAnswer) (m : ResolverManager)
      → IsTimed m
      → TimedAnswer (get_response tcp time ttl max_workers sock result m)
  unfolding get_response
  get_response-TimedAnswer result m timed = elim (Option-cases (lookup sock m.workers)) [
    | inl unknown ↦ rw (unknown, get_response) timed
    | inr (w, found) ↦ rw (found, get_response) (worker_answer-TimedAnswer w result m timed)
  ]

pub sent_whole-IsTimed : (sock : ℕ) (m : ResolverManager) → IsTimed m → IsTimed (sent_whole sock m)
sent_whole-IsTimed sock m timed = elim (Option-cases (lookup sock m.sending)) [
  | inl nothing_sent ↦ rw (nothing_sent, sent_whole) timed
  | inr (q, found) ↦ elim (Option-cases (lookup q.client_id m.clients)) [
    | inl absent ↦ rw (found, absent, sent_whole) timed
    | inr (c, present) ↦ rw (found, present, sent_whole) timed
  ]
]
