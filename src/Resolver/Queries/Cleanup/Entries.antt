-- ===== src/Resolver/Queries/Cleanup/Entries.antt =====
-- lib/exaproxy/reactor/resolver/manager.py: `cleanup` takes entries away from clients that wait no longer only.
use exaproxy.Common.{
  ℕ, zero, suc, ◌-◌, ◌≡◌, refl, Bool, none, some, List, [], ◌∷◌, ◌++◌, drop, ltb, arith, number_key,
  pair_key, nat_beq_iff, Bool-cases, Option-cases, inl, inr, sym, subst, length, ◌∙◌,
}
use exaproxy.Dict.{remove, lookup-remove}
use exaproxy.Resolver.Queries.{ResolverManager, Entry, Response}
use exaproxy.Resolver.Queries.Timed.{has_entry, AllTimed, IsTimed, insert-AllTimed}
use exaproxy.Resolver.Queries.Cleanup.{Turn, expire_entry, cleanup_loop, cleanup, then_rest, finish}
use exaproxy.Resolver.Queries.Cleanup.Timed.{IsExpired, gone, again, expire_entry-IsExpired}
use exaproxy.Resolver.Queries.Cleanup.Waiting.{drop_rest, drop_appended}

-- After a turn each client that waits has an entry among those that are not taken yet.
turn-AllTimed :
    (count time : ℕ) (m : ResolverManager) (e : Entry) (l : List Entry) (answers : List Response)
    (n : ResolverManager)
    → drop count m.active ≡ e ∷ l
    → AllTimed m.clients (e ∷ l)
    → IsExpired e time m (some (answers, n))
    → AllTimed n.clients (drop (suc count) n.active)
unfolding has_entry
turn-AllTimed count time m e l answers n here timed (gone _ _ kept same_active) = rw same_active (
    rw (drop_rest count m.active l e here) (λ client w found.
      ground (arith, kept client w, timed client w, nat_beq_iff e.client_id client)))
turn-AllTimed count time m e l answers n here timed
      (again _ _ w f same_clients same_active now since) =
    let left : AllTimed (remove e.client_id m.clients) l = λ client v found. ground (
      arith,
      lookup-remove e.client_id client m.clients,
      timed client v,
      nat_beq_iff e.client_id client,
    ) in
    rw same_active (
      rw (drop_appended count m.active (f ∷ []) l e here) (
        rw same_clients
          (insert-AllTimed (remove e.client_id m.clients) l w f left (now ∙ sym since))))

module _ (fqdn : ℕ → Bool) (longest : ℕ → ℕ) (retries cutoff : ℕ) (clock : ℕ → ℕ) where
  -- What is left after the rest of the loop, given what the rest does.
  then_rest-IsTimed :
      (rest : ℕ → ResolverManager → Turn) (count : ℕ) (t : Turn)
      (r : List Response × ResolverManager)
      → ((answers : List Response) (n : ResolverManager) (q : List Response × ResolverManager)
          → t ≡ some (answers, n)
          → rest (suc count) n ≡ some q
          → IsTimed q.1)
      → then_rest fqdn longest retries cutoff clock rest count t ≡ some r
      → IsTimed r.1
  then_rest-IsTimed rest count none r k h = absurd cc
  then_rest-IsTimed rest count (some (answers, n)) r k h =
      elim (Option-cases (rest (suc count) n)) [
        | inl nothing ↦ absurd (cc (rw (nothing, then_rest) at h))
        | inr (q, found) ↦
            let same_one : some (answers ++ q.0, q.1) ≡ some r = rw (found, then_rest) at h in
            let last : q.1 ≡ r.1 = cc in
            subst (λ (m : ResolverManager). IsTimed m) last (k answers n q refl found)
      ]

  finish-IsTimed :
      (count : ℕ) (m : ResolverManager) (r : List Response × ResolverManager)
      → AllTimed m.clients (drop count m.active)
      → finish fqdn longest retries cutoff clock count m ≡ some r
      → IsTimed r.1
  finish-IsTimed count m r timed h =
      let last : record m { active = drop count m.active } ≡ r.1 = cc in
      subst (λ (m : ResolverManager). IsTimed m) last timed

  cleanup_loop-IsTimed :
      (fuel count : ℕ) (m : ResolverManager) (l : List Entry) (r : List Response × ResolverManager)
      → drop count m.active ≡ l
      → AllTimed m.clients l
      → cleanup_loop fqdn longest retries cutoff clock fuel count m ≡ some r
      → IsTimed r.1
  unfolding cleanup_loop
  cleanup_loop-IsTimed zero count m l r here timed h = absurd cc
  cleanup_loop-IsTimed (suc fuel) count m [] r here timed h =
      finish-IsTimed count m r (rw here timed) (rw (here, cleanup_loop) at h)
  cleanup_loop-IsTimed (suc fuel) count m (e ∷ l) r here timed h =
      elim (Bool-cases (ltb cutoff e.timestamp)) [
        | inl over ↦ finish-IsTimed count m r (rw here timed) (rw (here, over, cleanup_loop) at h)
        | inr old ↦
            then_rest-IsTimed (cleanup_loop fqdn longest retries cutoff clock fuel) count
              (expire_entry fqdn longest retries (clock count) e m) r
              (λ answers n q went later.
                cleanup_loop-IsTimed fuel (suc count) n (drop (suc count) n.active) q refl
                  (turn-AllTimed count (clock count) m e l answers n here timed (
                    subst (IsExpired e (clock count) m) went
                      (expire_entry-IsExpired fqdn longest retries (clock count) e m)))
                  later)
              (rw (here, old, cleanup_loop) at h)
      ]

-- A cleanup that ends leaves each client that waits its entry, whatever the clock and the order of the entries.
pub cleanup-entries :
    (fqdn : ℕ → Bool) (longest : ℕ → ℕ) (retries timeout now : ℕ) (clock : ℕ → ℕ)
    (m : ResolverManager) (r : List Response × ResolverManager)
    → IsTimed m
    → cleanup fqdn longest retries timeout now clock m ≡ some r
    → IsTimed r.1
unfolding cleanup
cleanup-entries fqdn longest retries timeout now clock m r timed h =
    cleanup_loop-IsTimed fqdn longest retries (now - timeout) clock (suc (length m.active)) 0 m
      m.active r refl timed h
