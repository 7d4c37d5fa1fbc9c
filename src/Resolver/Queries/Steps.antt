-- ===== src/Resolver/Queries/Steps.antt =====
-- Calls of the resolver manager: a client that waits keeps its entry in `active`.
use exaproxy.Common.{
  ℕ, List, refl, ◌≡◌, Bool, Option, none, some, number_key, pair_key, Option-cases, Bool-cases, inl,
  inr, subst,
}
use exaproxy.Dict.{lookup}
use exaproxy.Resolver.Cache as Cache
use exaproxy.Resolver.Queries.Cleanup.{Turn, cleanup}
use exaproxy.Resolver.Queries.Cleanup.Entries.{cleanup-entries}
use exaproxy.Resolver.Queries.{
  ResolverManager, Response, Command, Decision, Started, start_resolving,
}
use exaproxy.Resolver.Queries.Timed.{
  IsTimed, note_query-IsTimed, IsStarted, raised, nothing, noted, start_resolving-IsStarted,
}
use exaproxy.Resolver.Queries.Answers.{TcpQuery, WorkerAnswer, Answered}
use exaproxy.Resolver.Queries.Responses.{get_response, continue_sending}
use exaproxy.Resolver.Queries.Responses.Timed.{
  TimedAnswer, get_response-TimedAnswer, sent_whole-IsTimed,
}

-- A call of the reactor: startResolving with the identifier that the worker would give, getResponse
-- with what the worker of the socket answers, continueSending with whether its worker has sent all,
-- expireCache, and cleanup with the times that its turns read; the last argument of each of the others but
-- continueSending is the time.
pub data ResolverCall : Type 0 where
  start : ℕ → Command → Decision → ℕ → ℕ → ResolverCall
  respond : ℕ → Option WorkerAnswer → ℕ → ResolverCall
  continue : ℕ → Bool → ResolverCall
  expire : ℕ → ResolverCall
  clean_up : ℕ → (ℕ → ℕ) → ResolverCall

abbrev of_start : Started → Option ResolverManager
of_start none = none
of_start (some (r, m)) = some m

abbrev of_answer : Answered → Option ResolverManager
of_answer none = none
of_answer (some (r, m)) = some m

abbrev of_turn : Turn → Option ResolverManager
of_turn none = none
of_turn (some (answers, m)) = some m

module _ (fqdn : ℕ → Bool) (longest : ℕ → ℕ) (tcp : ℕ → TcpQuery)
    (ttl max_workers max_entries retries timeout : ℕ) where
  unfoldable pub step : ResolverCall → ResolverManager → Option ResolverManager
  step (start client command d fresh time) m =
      of_start (start_resolving fqdn longest client command d 1 none fresh time m)
  step (respond sock result time) m =
      of_answer (get_response tcp time ttl max_workers sock result m)
  step (continue sock all_sent) m = continue_sending sock all_sent m
  step (expire time) m = some (record m { cache = Cache.expire_cache time max_entries m.cache })
  step (clean_up now clock) m = of_turn (cleanup fqdn longest retries timeout now clock m)

same-IsTimed : (m n : ResolverManager) → some m ≡ some n → IsTimed m → IsTimed n
same-IsTimed m n h timed =
    let same_one : m ≡ n = cc in subst (λ (k : ResolverManager). IsTimed k) same_one timed

of_answer-IsTimed :
    (o : Answered) (n : ResolverManager) → TimedAnswer o → of_answer o ≡ some n → IsTimed n
of_answer-IsTimed none n timed h = absurd cc
of_answer-IsTimed (some (r, m)) n timed h = same-IsTimed m n h timed

of_start-IsTimed :
    (m : ResolverManager) (time : ℕ) (o : Started) (n : ResolverManager)
    → IsTimed m
    → IsStarted m time o
    → of_start o ≡ some n
    → IsTimed n
of_start-IsTimed m time _ n timed raised h = absurd cc
of_start-IsTimed m time _ n timed (nothing r) h = same-IsTimed m n h timed
of_start-IsTimed m time _ n timed (noted r identifier count q) h =
    same-IsTimed _ n h (note_query-IsTimed m.worker identifier time m.worker.socket count q m timed)

continue_sending-IsTimed :
    (sock : ℕ) (all_sent : Bool) (m n : ResolverManager)
    → IsTimed m
    → continue_sending sock all_sent m ≡ some n
    → IsTimed n
unfolding continue_sending
continue_sending-IsTimed sock all_sent m n timed h = elim (Option-cases (lookup sock m.workers)) [
  | inl missing ↦ absurd (cc (rw (missing, continue_sending) at h))
  | inr (w, found) ↦ elim (Bool-cases all_sent) [
    | inl whole ↦
        same-IsTimed _ n (rw (found, whole, continue_sending) at h)
          (sent_whole-IsTimed sock m timed)
    | inr more ↦ same-IsTimed m n (rw (found, more, continue_sending) at h) timed
  ]
]

of_turn-IsTimed :
    (t : Turn) (n : ResolverManager)
    → ((r : List Response × ResolverManager) → t ≡ some r → IsTimed r.1)
    → of_turn t ≡ some n
    → IsTimed n
of_turn-IsTimed none n timed h = absurd cc
of_turn-IsTimed (some (answers, m)) n timed h = same-IsTimed m n h (timed (answers, m) refl)

-- Whatever call is made that returns, a cleanup included, and whatever the workers answer, each client that
-- waits for an address goes on having an entry in `active` with the time of its query, by which it times
-- out.
pub step-IsTimed :
    (fqdn : ℕ → Bool) (longest : ℕ → ℕ) (tcp : ℕ → TcpQuery)
    (ttl max_workers max_entries retries timeout : ℕ) (call : ResolverCall) (m n : ResolverManager)
    → IsTimed m
    → step fqdn longest tcp ttl max_workers max_entries retries timeout call m ≡ some n
    → IsTimed n
unfolding step
step-IsTimed fqdn longest tcp ttl max_workers max_entries retries timeout
      (start client command d fresh time) m n timed h =
    of_start-IsTimed m time _ n timed
      (start_resolving-IsStarted fqdn longest client command d 1 none fresh time m) h
step-IsTimed fqdn longest tcp ttl max_workers max_entries retries timeout (respond sock result time)
      m n timed h =
    of_answer-IsTimed _ n (get_response-TimedAnswer tcp time ttl max_workers sock result m timed) h
step-IsTimed fqdn longest tcp ttl max_workers max_entries retries timeout (continue sock all_sent) m
      n timed h =
    continue_sending-IsTimed sock all_sent m n timed h
step-IsTimed fqdn longest tcp ttl max_workers max_entries retries timeout (expire time) m n timed
      h =
    same-IsTimed _ n h timed
step-IsTimed fqdn longest tcp ttl max_workers max_entries retries timeout (clean_up now clock) m n
      timed h =
    of_turn-IsTimed (cleanup fqdn longest retries timeout now clock m) n
      (λ r went. cleanup-entries fqdn longest retries timeout now clock m r timed went) h
