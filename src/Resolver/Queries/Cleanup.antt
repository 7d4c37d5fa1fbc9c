-- ===== src/Resolver/Queries/Cleanup.antt =====
-- lib/exaproxy/reactor/resolver/manager.py, `ResolverManager.cleanup`. The generator is run to its end:
-- its answers are collected. The loop is over a list that its turns append to; `clock` is the time of a
-- turn. A turn takes the entry of `active` at `count`, the number of those that were taken.
pub mod Timed
pub mod Waiting
pub mod Entries
pub mod Kept
use exaproxy.Common.{
  ℕ, ◌-◌, ◌+◌, suc, zero, Bool, true, false, not, ◌&&◌, Option, none, some, List, [], ◌∷◌, ◌++◌,
  if◌then◌else◌, drop, ltb, leb, number_key, pair_key, ◌==◌, length,
}
use exaproxy.Dict.{Dict, lookup, insert, remove}
use exaproxy.Resolver.Queries.{
  ResolverManager, Query, Waiter, Entry, DnsWorker, Response, not_found, start_resolving,
}

-- `if worker is not self.worker: worker.close(); self.workers.pop(sock)`
abbrev drop_worker : Entry → ResolverManager → ResolverManager
drop_worker e m = elim (lookup e.sock m.workers) [
  | none ↦ m
  | some w ↦
      if w.socket == m.worker.socket then m else record m { workers = remove e.sock m.workers }
]

-- the query of a waiter, which is taken out of its table
abbrev taken_query : Waiter → Entry → ResolverManager → Option (Query × ResolverManager)
taken_query w e m = elim (lookup (w.w_id, w.identifier) m.resolving) [
  | some q ↦ some (q, record m { resolving = remove (w.w_id, w.identifier) m.resolving })
  | none ↦ elim (lookup e.sock m.sending) [
    | none ↦ none
    | some q ↦ some (q, record m { sending = remove e.sock m.sending })
  ]
]

-- `worker is self.worker`
abbrev is_udp : Entry → ResolverManager → Bool
is_udp e m = elim (lookup e.sock m.workers) [ none ↦ false | some w ↦ w.socket == m.worker.socket ]

abbrev pub Turn : Type 0
Turn = Option (List Response × ResolverManager)

module _ (fqdn : ℕ → Bool) (longest : ℕ → ℕ) (retries : ℕ) (time : ℕ) (e : Entry) where
  -- A query that timed out is sent again, or given up.
  abbrev retry_query : Waiter → Query → ResolverManager → Turn
  retry_query w q m =
      if ltb w.resolve_count retries && is_udp e m
      then elim (start_resolving fqdn longest q.client_id q.command q.decision (w.resolve_count + 1)
          (some w.identifier) 0 time m) [ none ↦ none | some started ↦ some ([], started.1) ]
      else some (not_found q.client_id q.hostname ∷ [], drop_worker e m)

  abbrev expire_waiter : Waiter → ResolverManager → Turn
  expire_waiter w m = elim (taken_query w e m) [
    | none ↦ some ([], drop_worker e m)
    | some taken ↦ retry_query w taken.0 taken.1
  ]

  unfoldable pub expire_entry : ResolverManager → Turn
  expire_entry m = elim (lookup e.client_id m.clients) [
    | none ↦ some ([], drop_worker e m)
    | some w ↦ expire_waiter w (record m { clients = remove e.client_id m.clients })
  ]

module _ (fqdn : ℕ → Bool) (longest : ℕ → ℕ) (retries cutoff : ℕ) (clock : ℕ → ℕ) where
  abbrev pub then_rest : (ℕ → ResolverManager → Turn) → ℕ → Turn → Turn
  then_rest rest count none = none
  then_rest rest count (some (answers, m)) = elim (rest (suc count) m) [
    | none ↦ none
    | some later ↦ some (answers ++ later.0, later.1)
  ]

  abbrev pub finish : ℕ → ResolverManager → Turn
  finish count m = some ([], record m { active = drop count m.active })

  -- `none` also where the fuel is used up.
  unfoldable pub cleanup_loop : ℕ → ℕ → ResolverManager → Turn
  cleanup_loop zero count m = none
  cleanup_loop (suc fuel) count m =
      let rest = cleanup_loop fuel in
      elim (drop count m.active) [
        | [] ↦ finish count m
        | e ∷ entries ↦
            if ltb cutoff e.timestamp
            then finish count m
            else then_rest rest count (expire_entry fqdn longest retries (clock count) e m)
      ]

-- Every entry is taken once, and each turn appends at most one, which is not old.
unfoldable pub cleanup : (ℕ → Bool) → (ℕ → ℕ) → ℕ → ℕ → ℕ → (ℕ → ℕ) → ResolverManager → Turn
cleanup fqdn longest retries timeout now clock m =
    cleanup_loop fqdn longest retries (now - timeout) clock (suc (length m.active)) 0 m
