-- ===== src/Resolver/Queries/Timed.antt =====
-- A client that waits for an address has an entry in `active`, by which it times out.
use exaproxy.Common.{
  ℕ, ◌≡◌, ◌≢◌, refl, Bool, true, false, not, ◌&&◌, ◌||◌, Option, none, some, List, [], ◌∷◌, ◌++◌,
  if◌then◌else◌, arith, number_key, pair_key, nat_beq, nat_beq_iff, ◌==◌, Bool-cases, inl, inr, ltb,
}
use exaproxy.Dict.{Dict, lookup, insert, remove, lookup-insert, lookup-remove}
use exaproxy.Resolver.Queries.{
  ResolverManager, Waiter, Entry, Query, DnsWorker, Command, Decision, Response, not_found,
  not_qualified, note_query, start_resolving, start_host, start_query, Started, chosen, is_none,
  query_of, extract_hostname, resolve_decision,
}

-- Is there an entry of a client since a time?
unfoldable pub has_entry : ℕ → ℕ → List Entry → Bool
has_entry time client [] = false
has_entry time client (e ∷ active) =
    let rest = has_entry time client active in
    (nat_beq e.timestamp time && nat_beq e.client_id client) || rest

abbrev pub AllTimed : Dict ℕ Waiter → List Entry → Type 0
AllTimed clients active =
    (client : ℕ) (w : Waiter)
    → lookup client clients ≡ some w
    → has_entry w.active_time client active ≡ true

abbrev pub IsTimed : ResolverManager → Type 0
IsTimed m = AllTimed m.clients m.active

has_entry-append :
    (time client : ℕ) (l k : List Entry)
    → has_entry time client (l ++ k) ≡ (has_entry time client l || has_entry time client k)
unfolding has_entry
has_entry-append time client [] k = refl
has_entry-append time client (e ∷ l) k = ground (arith, has_entry-append time client l k)

-- A client that is noted has its entry at the end.
pub insert-AllTimed :
    (clients : Dict ℕ Waiter) (active : List Entry) (w : Waiter) (e : Entry)
    → AllTimed clients active
    → e.timestamp ≡ w.active_time
    → AllTimed (insert e.client_id w clients) (active ++ (e ∷ []))
unfolding has_entry
insert-AllTimed clients active w e all same_time client v found = ground (
  arith,
  lookup-insert e.client_id client w clients,
  has_entry-append v.active_time client active (e ∷ []),
  all client v,
  nat_beq_iff e.client_id client,
  nat_beq_iff e.timestamp v.active_time,
)

pub remove-AllTimed :
    (clients : Dict ℕ Waiter) (active : List Entry) (client : ℕ)
    → AllTimed clients active
    → AllTimed (remove client clients) active
remove-AllTimed clients active client all other v found =
    ground (arith, lookup-remove client other clients, all other v)

pub note_query-IsTimed :
    (worker : DnsWorker) (identifier time sock count : ℕ) (q : Query) (m : ResolverManager)
    → IsTimed m
    → IsTimed (note_query worker identifier time sock count q m)
unfolding note_query
note_query-IsTimed worker identifier time sock count q m all =
    insert-AllTimed m.clients m.active
      (record {
        w_id = worker.w_id;
        identifier = identifier;
        active_time = time;
        resolve_count = count;
      })
      (record { timestamp = time; client_id = q.client_id; sock = sock }) all refl

-- What starting a query may leave: the manager as it was, or with the query noted.
pub data IsStarted (m : ResolverManager) (time : ℕ) : Started → Type 0 where
  raised : IsStarted m time none
  nothing : (r : Option ℕ × Option Response) → IsStarted m time (some (r, m))
  noted :
      (r : Option ℕ × Option Response) (identifier count : ℕ) (q : Query)
      → IsStarted m time (some (r, note_query m.worker identifier time m.worker.socket count q m))

module _ (fqdn : ℕ → Bool) (longest : ℕ → ℕ) (client : ℕ) (command : Command) (d : Decision)
    (count : ℕ) (identifier : Option ℕ) (fresh time : ℕ) (m : ResolverManager) where
  start_query-IsStarted :
      (host : ℕ)
      → IsStarted m time
          (start_query fqdn longest client command d count identifier fresh time host m)
  start_query-IsStarted host = go (fqdn host) (ltb 255 (longest host))
    where
      go :
          (f j : Bool)
          → IsStarted m time (
              if not f
              then some ((none, some (not_qualified client host)), m)
              else if j
              then some ((none, some (not_found client host)), m)
              else some (
                (some (chosen identifier fresh), none),
                note_query m.worker
                    (chosen identifier fresh)
                    time
                    m.worker.socket
                    count
                    (query_of client host command d)
                    m,
              ))
      go false j = nothing _
      go true true = nothing _
      go true false = noted _ _ _ _

  start_host-IsStarted :
      (host : ℕ)
      → IsStarted m time
          (start_host fqdn longest client command d count identifier fresh time host m)
  start_host-IsStarted host = go (lookup host m.cache.cache) identifier (start_query-IsStarted host)
    where
      query : Started
      query = start_query fqdn longest client command d count identifier fresh time host m

      cached :
          (o : Option Response) (i : Option ℕ)
          → IsStarted m time
              (let s : Started = elim o [ none ↦ none | some r ↦ some ((i, some r), m) ] in s)
      cached none i = raised
      cached (some r) i = nothing _

      go :
          (o : Option ℕ) (i : Option ℕ)
          → IsStarted m time query
          → IsStarted m time (
              let s : Started = elim o [
                | none ↦ query
                | some ip ↦
                    if is_none i
                    then elim (resolve_decision client command d ip) [
                      | none ↦ none
                      | some r ↦ some ((i, some r), m)
                    ]
                    else query
              ] in
              s)
      go none i h = h
      go (some ip) none h = cached (resolve_decision client command d ip) none
      go (some ip) (some i) h = h

  pub start_resolving-IsStarted :
      IsStarted m time (start_resolving fqdn longest client command d count identifier fresh time m)
  unfolding start_resolving
  start_resolving-IsStarted = go (extract_hostname command d)
    where
      go :
          (o : Option ℕ)
          → IsStarted m time (
              let s : Started = elim o [
                | none ↦ some ((none, none), m)
                | some host ↦
                    if host == 0
                    then some ((none, none), m)
                    else start_host fqdn longest client command d count identifier fresh time host m
              ] in
              s)
      go none = nothing _
      go (some host) = elim (Bool-cases (host == 0)) [
        | inl empty ↦ rw empty (nothing _)
        | inr full ↦ rw full (start_host-IsStarted host)
      ]

-- A query that is sent again raises nothing: the cache is not asked.
pub start_resolving-again :
    (fqdn : ℕ → Bool) (longest : ℕ → ℕ) (client : ℕ) (command : Command) (d : Decision)
    (count identifier fresh time : ℕ) (m : ResolverManager)
    → start_resolving fqdn longest client command d count (some identifier) fresh time m ≢ none
unfolding start_resolving
start_resolving-again fqdn longest client command d count identifier fresh time m h = ground arith
