-- ===== src/Resolver/Queries.antt =====
-- lib/exaproxy/reactor/resolver/manager.py, the queries of class `ResolverManager`: the table of the
-- clients that wait, of the queries under way, and `active`, by which they time out. A hostname is a
-- number, 0 the empty one; `fqdn` says whether a hostname has a dot where the configuration asks for one,
-- `longest` is the length of its longest part, `isip` is asked of it. An address and the rest of a
-- decision are numbers. The identifier that a worker gives and the time are arguments.
mod Tests
pub mod Timed
pub mod Cleanup
pub mod Answers
pub mod Responses
pub mod Steps
use exaproxy.Common.{
  ℕ, ◌-◌, suc, zero, Bool, true, false, not, ◌&&◌, Option, none, some, List, [], ◌∷◌, ◌++◌,
  if◌then◌else◌, drop, ltb, leb, number_key, pair_key, ◌==◌,
}
use exaproxy.Dict.{Dict, lookup, insert, remove, contains}
use exaproxy.Poller.Epoll.{Call, add_read, add_write, remove_read, remove_write}
use exaproxy.Resolver.Cache.{Cache}

pub data Command : Type 0 where
  download connect intercept other : Command

-- a decision is a tuple: its first element and the others
pub record Decision : Type 0 where
  pub first : ℕ
  pub args : ℕ

-- what is kept of a query that is under way
pub record Query : Type 0 where
  pub client_id : ℕ
  pub original : ℕ
  pub hostname : ℕ
  pub command : Command
  pub decision : Decision

-- what is kept of a client that waits
pub record Waiter : Type 0 where
  pub w_id : ℕ
  pub identifier : ℕ
  pub active_time : ℕ
  pub resolve_count : ℕ

-- an entry of `active`
pub record Entry : Type 0 where
  pub timestamp : ℕ
  pub client_id : ℕ
  pub sock : ℕ

-- a query that waits for a TCP worker
pub record Postponed : Type 0 where
  pub client_id : ℕ
  pub command : Command
  pub decision : Decision
  pub resolve_count : ℕ

pub record DnsWorker : Type 0 where
  pub w_id : ℕ
  pub socket : ℕ

-- `created` counts the TCP workers that were made; `calls` are those on the poller, newest first.
pub record ResolverManager : Type 0 where
  pub worker : DnsWorker
  pub workers : Dict ℕ DnsWorker
  pub clients : Dict ℕ Waiter
  pub resolving : Dict (ℕ × ℕ) Query
  pub sending : Dict ℕ Query
  pub active : List Entry
  pub cache : Cache
  pub worker_count : ℕ
  pub waiting : List Postponed
  pub chained : Dict ℕ ℕ
  pub created : ℕ
  pub calls : List Call

-- `worker` is the UDP client.
unfoldable pub create : DnsWorker → ResolverManager
create worker = record {
  worker = worker;
  workers = (worker.socket, worker) ∷ [];
  clients = [];
  resolving = [];
  sending = [];
  active = [];
  cache = record { cache = []; cached = [] };
  worker_count = 1;
  waiting = [];
  chained = [];
  created = 0;
  calls = add_read "read_resolver" worker.socket ∷ [];
}

-- What is answered: the decision with an address, or one of two pages about a hostname.
pub data Response : Type 0 where
  resolved : ℕ → Command → ℕ → ℕ → Response
  not_found not_qualified : ℕ → ℕ → Response

unfoldable pub resolves : (ℕ → Bool) → Command → Decision → Bool
resolves isip other d = false
resolves isip download d = not (isip d.first)
resolves isip connect d = not (isip d.first)
resolves isip intercept d = not (isip d.first)

unfoldable pub extract_hostname : Command → Decision → Option ℕ
extract_hostname other d = none
extract_hostname download d = some d.first
extract_hostname connect d = some d.first
extract_hostname intercept d = some d.first

-- `(client_id, command) + resolveDecision(command, decision, ip)`, a TypeError where that is None
unfoldable pub resolve_decision : ℕ → Command → Decision → ℕ → Option Response
resolve_decision client other d ip = none
resolve_decision client download d ip = some (resolved client download ip d.args)
resolve_decision client connect d ip = some (resolved client connect ip d.args)
resolve_decision client intercept d ip = some (resolved client intercept ip d.args)

-- A query is under way with a worker since a time, and times out by the entry with `sock`.
unfoldable pub note_query : DnsWorker → ℕ → ℕ → ℕ → ℕ → Query → ResolverManager → ResolverManager
note_query worker identifier time sock count q m = record m {
  resolving = insert (worker.w_id, identifier) q m.resolving;
  clients =
      insert q.client_id
        (record {
          w_id = worker.w_id;
          identifier = identifier;
          active_time = time;
          resolve_count = count;
        })
        m.clients;
  active = m.active ++ (record { timestamp = time; client_id = q.client_id; sock = sock } ∷ []);
}

abbrev pub Started : Type 0
Started = Option ((Option ℕ × Option Response) × ResolverManager)

-- `self.worker.resolveHost(hostname, identifier=identifier)` gives the identifier it is given, or a
-- fresh one.
abbrev chosen : Option ℕ → ℕ → ℕ
chosen none fresh = fresh
chosen (some identifier) fresh = identifier

abbrev is_none : Option ℕ → Bool
is_none none = true
is_none (some n) = false

abbrev query_of : ℕ → ℕ → Command → Decision → Query
query_of client host command d = record {
  client_id = client;
  original = host;
  hostname = host;
  command = command;
  decision = d;
}

module _ (fqdn : ℕ → Bool) (longest : ℕ → ℕ) where
  -- A hostname that is not in the cache, or one that is asked for again. The cache holds no None, so
  -- that the branch for one is left out.
  abbrev start_query : ℕ → Command → Decision → ℕ → Option ℕ → ℕ → ℕ → ℕ → ResolverManager → Started
  start_query client command d count identifier fresh time host m =
      if not (fqdn host)
      then some ((none, some (not_qualified client host)), m)
      else if ltb 255 (longest host)
      then some ((none, some (not_found client host)), m)
      else (let i = chosen identifier fresh in
          some (
            (some i, none),
            note_query m.worker i time m.worker.socket count (query_of client host command d) m,
          ))

  abbrev start_host : ℕ → Command → Decision → ℕ → Option ℕ → ℕ → ℕ → ℕ → ResolverManager → Started
  start_host client command d count identifier fresh time host m =
      let query = start_query client command d count identifier fresh time host m in
      elim (lookup host m.cache.cache) [
        | none ↦ query
        | some ip ↦
            if is_none identifier
            then elim (resolve_decision client command d ip) [
              | none ↦ none
              | some r ↦ some ((identifier, some r), m)
            ]
            else query
      ]

  unfoldable pub start_resolving :
      ℕ → Command → Decision → ℕ → Option ℕ → ℕ → ℕ → ResolverManager → Started
  start_resolving client command d count identifier fresh time m =
      elim (extract_hostname command d) [
        | none ↦ some ((none, none), m)
        | some host ↦
            if host == 0
            then some ((none, none), m)
            else start_host client command d count identifier fresh time host m
      ]
