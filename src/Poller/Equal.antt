-- ===== src/Poller/Equal.antt =====
-- The two pollers side by side: what the kernel polls for one, `select` is given by the other.
use Prim.Native.String.{String}
use exaproxy.Common.{
  ℕ, ◌≡◌, refl, Bool, true, false, ◌||◌, Option, none, some, List, [], ◌∷◌, arith, number_key,
  text_key, sym, ◌∙◌, mem-count, nat_beq, Option-cases, inl, inr, if◌then◌else◌,
}
use exaproxy.Dict.{lookup, contains}
use exaproxy.Poller.Epoll.{
  Call, EPoller, add_read, remove_read, cork_read, uncork_read, add_write, remove_write, cork_write,
  uncork_write, set_up_read, set_up_write, clear_reads, clear_writes,
}
use exaproxy.Poller.Epoll.Consistent.{AllConsistent}
use exaproxy.Poller.Epoll.Refines.{seat_of}
use exaproxy.Poller.Epoll.Runs.{run, polls, AllReady, run-moved}
use exaproxy.Poller.Select.{SelectPoller, Side, listed, emptied, inside, act}
use exaproxy.Poller.Select.Counts.{counts}
use exaproxy.Poller.Select.Agree.{Agrees, IsAllowed, act-Agrees}
use exaproxy.Poller.Seats.{Seat, move, moved, is_polled}

unfoldable pub run_select : List Call → SelectPoller → Option SelectPoller
run_select [] u = some u
run_select (call ∷ calls) u = elim (act call u) [ none ↦ none | some w ↦ run_select calls w ]

abbrev among : String → ℕ → Side → Bool
among m t p = elim (lookup m p.sockets) [ none ↦ false | some l ↦ inside t l ]

-- Is a socket given to `select` for a name?
unfoldable pub selects : String → ℕ → SelectPoller → Bool
selects m t u = among m t u.reads || among m t u.writes

-- Every call of a sequence is one that select can follow, in the seats that it finds.
abbrev pub AllAllowed : (ℕ → Option ℕ) → (String → ℕ → Seat) → SelectPoller → List Call → Type 0
AllAllowed fileno σ u [] = Unit
AllAllowed fileno σ u (call ∷ calls) =
    IsAllowed fileno σ u call × AllAllowed fileno (λ m t. move fileno m t call (σ m t)) u calls

module _ (u w : SelectPoller)
    (read_names : (m : String) → contains m w.reads.sockets ≡ contains m u.reads.sockets)
    (write_names : (m : String) → contains m w.writes.sockets ≡ contains m u.writes.sockets)
    (fileno : ℕ → Option ℕ) where
  module _ (σ : String → ℕ → Seat) where
    still-IsAllowed : (call : Call) → IsAllowed fileno σ u call → IsAllowed fileno σ w call
    still-IsAllowed (add_read n s) (known, opened, fit) = (read_names n ∙ known, opened, fit)
    still-IsAllowed (remove_read n s) known = read_names n ∙ known
    still-IsAllowed (cork_read n s) known = read_names n ∙ known
    still-IsAllowed (uncork_read n s) (known, opened, fit) = (read_names n ∙ known, opened, fit)
    still-IsAllowed (add_write n s) (known, opened, fit) = (write_names n ∙ known, opened, fit)
    still-IsAllowed (remove_write n s) known = write_names n ∙ known
    still-IsAllowed (cork_write n s) known = write_names n ∙ known
    still-IsAllowed (uncork_write n s) (known, opened, fit) = (write_names n ∙ known, opened, fit)
    still-IsAllowed (set_up_read n) h = h
    still-IsAllowed (set_up_write n) h = h
    still-IsAllowed (clear_reads n) h = h
    still-IsAllowed (clear_writes n) h = h

  all-AllAllowed :
      (σ : String → ℕ → Seat) (calls : List Call)
      → AllAllowed fileno σ u calls
      → AllAllowed fileno σ w calls
  all-AllAllowed σ [] h = tt
  all-AllAllowed σ (c ∷ calls) (fit, rest) =
      (still-IsAllowed σ c fit, all-AllAllowed (λ m t. move fileno m t c (σ m t)) calls rest)

among-counts :
    (m : String) (t : ℕ) (p : Side)
    → among m t p ≡ (if nat_beq (counts m t p) 0 then false else true)
among-counts m t p = elim (Option-cases (lookup m p.sockets)) [
  | inl missing ↦ ground arith
  | inr (listed l, found) ↦ ground (arith, mem-count t l)
  | inr (emptied, found) ↦ ground arith
]

selects-Agrees :
    (σ : String → ℕ → Seat) (u : SelectPoller) (m : String) (t : ℕ)
    → Agrees σ u
    → selects m t u ≡ is_polled (σ m t)
unfolding selects
selects-Agrees σ u m t v =
    ground (arith, v.shown m t, among-counts m t u.reads, among-counts m t u.writes)

module _ (fileno : ℕ → Option ℕ) where
  run_select-moved :
      (calls : List Call) (σ : String → ℕ → Seat) (u : SelectPoller)
      → Agrees σ u
      → AllAllowed fileno σ u calls
      → (w : SelectPoller) × (run_select calls u ≡ some w)
        × ((m : String) (t : ℕ) → selects m t w ≡ is_polled (moved fileno m t calls (σ m t)))
  unfolding run_select
  run_select-moved [] σ u v h = (u, refl, λ m t. selects-Agrees σ u m t v)
  run_select-moved (call ∷ calls) σ u v (fit, rest) =
      let (w, e, agrees, reads, writes) = act-Agrees fileno σ u v call fit in
      let τ : String → ℕ → Seat = λ m t. move fileno m t call (σ m t) in
      let (x, done, shown) =
        run_select-moved calls τ w agrees (all-AllAllowed u w reads writes fileno τ calls rest) in
      (x, rw (e, run_select) done, shown)

  -- From an epoll poller with tables that agree and a select poller that shows the same seats, a
  -- sequence of calls that epoll is ready for and select can follow returns on both, and then
  -- `select` is given a socket under a name exactly where the kernel polls it under that name.
  pub selects-polls :
      (calls : List Call) (p : EPoller) (u : SelectPoller)
      → AllConsistent p.channels
      → Agrees (λ m t. seat_of m t p) u
      → AllReady fileno p calls
      → AllAllowed fileno (λ m t. seat_of m t p) u calls
      → (q : EPoller) × (w : SelectPoller) × (run fileno calls p ≡ some q)
        × (run_select calls u ≡ some w)
        × ((m : String) (t : ℕ) → selects m t w ≡ polls m t q)
  selects-polls calls p u all agrees ready allowed =
      let (q, went, polled_as) = run-moved fileno calls p all ready in
      let (w, acted, shown) = run_select-moved calls (λ m t. seat_of m t p) u agrees allowed in
      (q, w, went, acted, λ m t. shown m t ∙ sym (polled_as m t))
