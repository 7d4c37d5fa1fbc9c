-- ===== src/Resolver/Queries/Cleanup/Waiting.antt =====
-- After `cleanup` no client has waited for as long as the time-out.
use exaproxy.Common.{
  ℕ, zero, suc, ◌-◌, ◌≤◌, ◌<◌, ◌≡◌, refl, Bool, true, some, List, [], ◌∷◌, ◌++◌, if◌then◌else◌,
  drop, ltb, arith, number_key, pair_key, nat_beq_iff, Bool-cases, inl, inr, sym, ap, ◌∙◌, length,
}
use exaproxy.Dict.{lookup, remove, lookup-remove}
use exaproxy.Resolver.Queries.{ResolverManager, Waiter, Entry, Response}
use exaproxy.Resolver.Queries.Timed.{has_entry, AllTimed, IsTimed, insert-AllTimed}
use exaproxy.Resolver.Queries.Cleanup.{Turn, expire_entry, cleanup_loop, cleanup, then_rest, finish}
use exaproxy.Resolver.Queries.Cleanup.Timed.{IsExpired, gone, again, expire_entry-IsExpired}

pub drop_rest :
    (count : ℕ) (l rest : List Entry) (e : Entry)
    → drop count l ≡ e ∷ rest
    → drop (suc count) l ≡ rest
drop_rest zero [] rest e h = absurd cc
drop_rest zero (f ∷ l) rest e h = cc
drop_rest (suc count) [] rest e h = absurd cc
drop_rest (suc count) (f ∷ l) rest e h = drop_rest count l rest e h

pub drop_appended :
    (count : ℕ) (l k rest : List Entry) (e : Entry)
    → drop count l ≡ e ∷ rest
    → drop (suc count) (l ++ k) ≡ rest ++ k
drop_appended zero [] k rest e h = absurd cc
drop_appended zero (f ∷ l) k rest e h =
    let same_rest : l ≡ rest = cc in ap (λ (x : List Entry). x ++ k) same_rest
drop_appended (suc count) [] k rest e h = absurd cc
drop_appended (suc count) (f ∷ l) k rest e h = drop_appended count l k rest e h

-- Every entry is later than the cut-off.
abbrev pub AllLate : ℕ → List Entry → Type 0
AllLate cutoff [] = Unit
AllLate cutoff (e ∷ l) = (cutoff < e.timestamp) × AllLate cutoff l

-- The entries stand in the order of their times.
abbrev pub IsOrdered : List Entry → Type 0
IsOrdered [] = Unit
IsOrdered (e ∷ []) = Unit
IsOrdered (e ∷ f ∷ l) = (e.timestamp ≤ f.timestamp) × IsOrdered (f ∷ l)

-- No entry is old behind one that is late.
abbrev IsTidy : ℕ → List Entry → Type 0
IsTidy cutoff [] = Unit
IsTidy cutoff (e ∷ l) = (cutoff < e.timestamp → AllLate cutoff l) × IsTidy cutoff l

module _ (cutoff : ℕ) where
  ordered_late :
      (e : Entry) (l : List Entry) → IsOrdered (e ∷ l) → cutoff < e.timestamp → AllLate cutoff l
  ordered_late e [] h late = tt
  ordered_late e (f ∷ l) (le, h) late =
      let next : cutoff < f.timestamp = omega arith in (next, ordered_late f l h next)

  ordered-IsTidy : (l : List Entry) → IsOrdered l → IsTidy cutoff l
  ordered-IsTidy [] h = tt
  ordered-IsTidy (e ∷ []) h = (λ late. tt, tt)
  ordered-IsTidy (e ∷ f ∷ l) (le, h) = (ordered_late e (f ∷ l) (le, h), ordered-IsTidy (f ∷ l) h)

  append-AllLate :
      (l : List Entry) (f : Entry)
      → AllLate cutoff l
      → cutoff < f.timestamp
      → AllLate cutoff (l ++ f ∷ [])
  append-AllLate [] f h late = (late, tt)
  append-AllLate (e ∷ l) f (first, h) late = (first, append-AllLate l f h late)

  append-IsTidy :
      (l : List Entry) (f : Entry)
      → IsTidy cutoff l
      → cutoff < f.timestamp
      → IsTidy cutoff (l ++ f ∷ [])
  append-IsTidy [] f h late = (λ x. tt, tt)
  append-IsTidy (e ∷ l) f (first, h) late =
      (λ x. append-AllLate l f (first x) late, append-IsTidy l f h late)

  abbrev early : List Entry → ℕ
  early [] = 0
  early (e ∷ l) = let rest = early l in if ltb cutoff e.timestamp then 0 else suc rest

  early-append : (l : List Entry) (f : Entry) → cutoff < f.timestamp → early (l ++ f ∷ []) ≡ early l
  early-append [] f late = ground arith
  early-append (e ∷ l) f late = ground (arith, early-append l f)

  early_le : (l : List Entry) → early l ≤ length l
  early_le [] = omega arith
  early_le (e ∷ l) = ground (arith, early_le l)

  late_time :
      (l : List Entry) (time client : ℕ)
      → AllLate cutoff l
      → has_entry time client l ≡ true
      → cutoff < time
  unfolding has_entry
  late_time [] time client h found = absurd cc
  late_time (e ∷ l) time client (first, h) found =
      ground (arith, late_time l time client, nat_beq_iff e.timestamp time)

-- What the loop ends with: its clients have entries, and no entry is old.
abbrev Ends : ℕ → Turn → Type 0
Ends cutoff t =
    (r : List Response × ResolverManager) × (t ≡ some r) × IsTimed r.1 × AllLate cutoff r.1.active

module _ (fqdn : ℕ → Bool) (longest : ℕ → ℕ) (retries cutoff : ℕ) (clock : ℕ → ℕ)
    (late : (k : ℕ) → cutoff < clock k) where
  finish-Ends :
      (count : ℕ) (m : ResolverManager) (l : List Entry)
      → drop count m.active ≡ l
      → AllTimed m.clients l
      → AllLate cutoff l
      → Ends cutoff (finish fqdn longest retries cutoff clock count m)
  finish-Ends count m l e timed done = (_, refl, rw e timed, rw e done)

  then_rest-Ends :
      (rest : ℕ → ResolverManager → Turn) (count : ℕ) (answers : List Response)
      (n : ResolverManager)
      → Ends cutoff (rest (suc count) n)
      → Ends cutoff (then_rest fqdn longest retries cutoff clock rest count (some (answers, n)))
  then_rest-Ends rest count answers n (r, e, timed, done) =
      ((answers ++ r.0, r.1), rw (e, then_rest) refl, timed, done)

  module _ (fuel : ℕ) (count : ℕ) (m : ResolverManager) (e : Entry) (l : List Entry)
      (here : drop count m.active ≡ e ∷ l) (timed : AllTimed m.clients (e ∷ l))
      (tidy : IsTidy cutoff l) (enough : early cutoff l < fuel)
      (loop : (n : ResolverManager) (k : List Entry)
        → drop (suc count) n.active ≡ k
        → early cutoff k < fuel
        → AllTimed n.clients k
        → IsTidy cutoff k
        → Ends cutoff (cleanup_loop fqdn longest retries cutoff clock fuel (suc count) n)) where
    turn-Ends :
        (t : Turn)
        → IsExpired e (clock count) m t
        → Ends cutoff (
            then_rest fqdn longest retries cutoff clock
              (cleanup_loop fqdn longest retries cutoff clock fuel)
              count
              t)
    unfolding has_entry
    turn-Ends _ (gone answers n kept same_active) =
        then_rest-Ends (cleanup_loop fqdn longest retries cutoff clock fuel) count answers n (
          loop n l (rw same_active (drop_rest count m.active l e here)) enough
            (λ client w found.
              ground (arith, kept client w, timed client w, nat_beq_iff e.client_id client))
            tidy)
    turn-Ends _ (again answers n w f same_clients same_active now since) =
        let left : AllTimed (remove e.client_id m.clients) l = λ client v found. ground (
          arith,
          lookup-remove e.client_id client m.clients,
          timed client v,
          nat_beq_iff e.client_id client,
        ) in
        let fresh : cutoff < f.timestamp = omega (arith, late count) in
        then_rest-Ends (cleanup_loop fqdn longest retries cutoff clock fuel) count answers n (
          loop n (l ++ f ∷ []) (rw same_active (drop_appended count m.active (f ∷ []) l e here))
            (omega (arith, early-append cutoff l f fresh))
            (rw same_clients
              (insert-AllTimed (remove e.client_id m.clients) l w f left (now ∙ sym since)))
            (append-IsTidy cutoff l f tidy fresh))

  cleanup_loop-Ends :
      (fuel count : ℕ) (m : ResolverManager) (l : List Entry)
      → drop count m.active ≡ l
      → early cutoff l < fuel
      → AllTimed m.clients l
      → IsTidy cutoff l
      → Ends cutoff (cleanup_loop fqdn longest retries cutoff clock fuel count m)
  unfolding cleanup_loop
  cleanup_loop-Ends zero count m l here enough timed tidy = absurd (omega arith)
  cleanup_loop-Ends (suc fuel) count m [] here enough timed tidy =
      rw (here, cleanup_loop) (finish-Ends count m [] here timed tt)
  cleanup_loop-Ends (suc fuel) count m (e ∷ l) here enough timed (first, tidy) =
      elim (Bool-cases (ltb cutoff e.timestamp)) [
        | inl over ↦
            let fresh : cutoff < e.timestamp = ground arith in
            rw (here, over, cleanup_loop)
              (finish-Ends count m (e ∷ l) here timed (fresh, first fresh))
        | inr old ↦
            rw (here, old, cleanup_loop)
              (turn-Ends fuel count m e l here timed tidy (ground arith)
                (λ n k. cleanup_loop-Ends fuel (suc count) n k)
                (expire_entry fqdn longest retries (clock count) e m)
                (expire_entry-IsExpired fqdn longest retries (clock count) e m))
      ]

-- Where every client that waits has its entry, the entries stand in the order of their times, and the
-- clock does not fall behind the cut-off during the loop, a cleanup ends, whatever the number of
-- retries; then every client that still waits does so since after the cut-off, and has its entry.
pub cleanup-IsTimed :
    (fqdn : ℕ → Bool) (longest : ℕ → ℕ) (retries timeout now : ℕ) (clock : ℕ → ℕ)
    (m : ResolverManager)
    → IsTimed m
    → IsOrdered m.active
    → ((k : ℕ) → now - timeout < clock k)
    → (r : List Response × ResolverManager) × (cleanup fqdn longest retries timeout now clock m
        ≡ some r)
      × IsTimed r.1
      × ((client : ℕ) (w : Waiter)
          → lookup client r.1.clients ≡ some w
          → now - timeout < w.active_time)
unfolding cleanup
cleanup-IsTimed fqdn longest retries timeout now clock m timed ordered late =
    let cutoff = now - timeout in
    let (r, e, still, done) =
      cleanup_loop-Ends fqdn longest retries cutoff clock late (suc (length m.active)) 0 m m.active
        refl (omega (arith, early_le cutoff m.active)) timed
        (ordered-IsTidy cutoff m.active ordered) in
    (
      r,
      e,
      still,
      λ client w found.
          late_time cutoff r.1.active w.active_time client done (still client w found),
    )
