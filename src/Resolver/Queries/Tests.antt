-- ===== src/Resolver/Queries/Tests.antt =====
-- The resolver's theorems at concrete inputs.
use exaproxy.Common.{
  ℕ, suc, ◌+◌, ◌-◌, ◌<◌, ◌≡◌, refl, Bool, true, none, some, List, [], ◌∷◌, ◌++◌, arith, number_key,
  pair_key,
}
use exaproxy.Dict.{lookup, insert, contains}
use exaproxy.Resolver.Queries.{
  ResolverManager, Decision, download, Waiter, Entry, Response, Postponed, create, note_query,
  start_resolving, extract_hostname,
}
use exaproxy.Resolver.Queries.Timed.{IsTimed}
use exaproxy.Resolver.Queries.Answers.{TcpQuery, WorkerAnswer, new_tcp_resolver}
use exaproxy.Resolver.Queries.Responses.{get_response, answer_query}
use exaproxy.Resolver.Queries.Steps.{start, respond, step, step-IsTimed}
use exaproxy.Resolver.Queries.Cleanup.{cleanup, expire_entry}
use exaproxy.Resolver.Queries.Cleanup.Waiting.{cleanup-IsTimed}
use exaproxy.Resolver.Queries.Cleanup.Kept.{new_tcp_resolver-expire_entry}

-- Every hostname is qualified and short; the k-th TCP client has the socket 10 + k.
abbrev fqdn : ℕ → Bool
fqdn host = true

abbrev longest : ℕ → ℕ
longest host = 10

abbrev tcp : ℕ → TcpQuery
tcp k = record {
  worker = record { w_id = suc k; socket = 10 + k };
  identifier = 1;
  all_sent = true;
}

abbrev empty : ResolverManager
empty = create (record { w_id = 0; socket = 3 })

abbrev to_example : Decision
to_example = record { first = 77; args = 0 }

-- Client 5 asked for host 77 at the time 100.
abbrev asked : ResolverManager
asked =
    note_query empty.worker 1 100 3 1
      (record {
        client_id = 5;
        original = 77;
        hostname = 77;
        command = download;
        decision = to_example;
      })
      empty

empty-IsTimed : IsTimed empty
unfolding create lookup
empty-IsTimed client w found = absurd cc

started :
    step fqdn longest tcp 900 4 1000 3 30 (start 5 download to_example 1 100) empty ≡ some asked
unfolding step start_resolving extract_hostname create lookup
started = refl

asked-IsTimed : IsTimed asked
asked-IsTimed =
    step-IsTimed fqdn longest tcp 900 4 1000 3 30 (start 5 download to_example 1 100) empty asked
      empty-IsTimed started

-- The answer to client 5 starts another query.
abbrev chained_answer : WorkerAnswer
chained_answer = record {
  identifier = some 1;
  forhost = 77;
  ip = none;
  completed = true;
  newidentifier = some 2;
  newhost = 78;
  newcomplete = true;
}

answered :
    (n : ResolverManager) × (step fqdn longest tcp 900 4 1000 3 30
        (respond 3 (some chained_answer) 110)
        asked
      ≡ some n)
unfolding step get_response answer_query create lookup note_query insert
answered = (_, refl)

step-IsTimed_example : IsTimed answered.0
step-IsTimed_example =
    step-IsTimed fqdn longest tcp 900 4 1000 3 30 (respond 3 (some chained_answer) 110) asked
      answered.0 asked-IsTimed answered.1

cleanup-IsTimed_example :
    (r : List Response × ResolverManager) × (cleanup fqdn longest 3 30 200 (λ k. 200 + k) asked
      ≡ some r)
    × IsTimed r.1
    × ((client : ℕ) (w : Waiter) → lookup client r.1.clients ≡ some w → 200 - 30 < w.active_time)
unfolding create note_query
cleanup-IsTimed_example =
    cleanup-IsTimed fqdn longest 3 30 200 (λ k. 200 + k) asked asked-IsTimed tt (λ k. omega arith)

abbrev over_tcp : Postponed
over_tcp = record { client_id = 5; command = download; decision = to_example; resolve_count = 1 }

new_tcp_resolver-expire_entry_example :
    (let n : ResolverManager = (new_tcp_resolver tcp 110 over_tcp asked).1 in
      let e : Entry = record { timestamp = 110; client_id = 5; sock = 3 } in
      (n.active ≡ asked.active ++ (e ∷ []))
      × ((r : List Response × ResolverManager) × (expire_entry fqdn longest 3 200 e n ≡ some r)
          × (contains 10 r.1.workers ≡ true)
          × (r.1.worker_count ≡ n.worker_count)))
unfolding create note_query extract_hostname lookup
new_tcp_resolver-expire_entry_example =
    new_tcp_resolver-expire_entry fqdn longest 3 200 110 tcp over_tcp 77 asked refl
      (λ e. ground arith) refl (λ e. ground arith)
