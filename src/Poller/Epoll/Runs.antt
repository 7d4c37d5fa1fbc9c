-- ===== src/Poller/Epoll/Runs.antt =====
-- Sequences of calls on an epoll poller against the description of what a poller promises.
use Prim.Native.String.{String}
use exaproxy.Common.{
  ℕ, ◌≡◌, inl, inr, refl, Bool, true, false, Option, none, some, List, [], ◌∷◌, arith, number_key,
  text_key, Option-cases, ap, ◌∙◌,
}
use exaproxy.Dict.{lookup, contains, contains-insert}
use exaproxy.Poller.Epoll.{
  readable, writable, Channel, EPoller, Change, same, fault, done, closed, add, take_out, cork,
  uncork, empty_channel, on_channel, settle, Outcome, unless_fault, drop_error, setup_read,
  setup_write, add_read_socket, remove_read_socket, cork_read_socket, uncork_read_socket,
  add_write_socket, remove_write_socket, cork_write_socket, uncork_write_socket, step, Call,
  add_read, remove_read, cork_read, uncork_read, add_write, remove_write, cork_write, uncork_write,
  set_up_read, set_up_write, clear_reads, clear_writes,
}
use exaproxy.Poller.Epoll.Consistent.{IsConsistent, AllConsistent, step-AllConsistent}
use exaproxy.Poller.Epoll.Safety.{IsReadyFor, step_total}
use exaproxy.Poller.Epoll.Refines.{seat_of, step-seat_of}
use exaproxy.Poller.Seats.{moved, is_polled}

-- the calls of the reactor, one after the other
unfoldable pub run : (ℕ → Option ℕ) → List Call → EPoller → Option EPoller
run fileno [] p = some p
run fileno (call ∷ calls) p = elim (step fileno call p) [
  | none ↦ none
  | some q ↦ run fileno calls q
]

-- Does the kernel poll a socket under a name?
unfoldable pub polls : String → ℕ → EPoller → Bool
polls m t p = elim (lookup m p.channels) [ none ↦ false | some c ↦ contains t c.registered ]

-- A call that empties a name may forget it.
abbrev pub empties : Call → Bool
empties (clear_reads n) = true
empties (clear_writes n) = true
empties _ = false

-- Every call names a name of the poller and an open socket, and none empties a name.
abbrev pub AllReady : (ℕ → Option ℕ) → EPoller → List Call → Type 0
AllReady fileno p [] = Unit
AllReady fileno p (call ∷ calls) =
    IsReadyFor fileno p call × (empties call ≡ false) × AllReady fileno p calls

polls-seat_of :
    (m : String) (t : ℕ) (p : EPoller)
    → AllConsistent p.channels
    → polls m t p ≡ is_polled (seat_of m t p)
unfolding polls
polls-seat_of m t p all = elim (Option-cases (lookup m p.channels)) [
  | inl missing ↦ ground arith
  | inr (c, found) ↦ let v : IsConsistent c = all m c found in ground (arith, v.polled t, v.corks t)
]

module _ (n m : String) (s : ℕ) where
  on_channel_known :
      (f : Channel → Change) (p : EPoller) (q : EPoller)
      → contains m p.channels ≡ true
      → unless_fault p (on_channel n s f p) ≡ some q
      → contains m q.channels ≡ true
  on_channel_known f p q known h = elim (Option-cases (lookup n p.channels)) [
    | inl missing ↦ cc (rw (missing, on_channel) at h)
    | inr (c, found) ↦ settled (f c) (rw (found, on_channel) at h)
  ]
    where
      settled :
          (r : Change) → unless_fault p (settle n s p r) ≡ some q → contains m q.channels ≡ true
      settled same g = ground arith
      settled fault g = cc
      settled (done d) g = ground (arith, contains-insert n m d p.channels)
      settled (closed d) g = ground (arith, contains-insert n m d p.channels)

  drop_error_known :
      (f : Channel → Change) (p : EPoller) (q : EPoller) (o : Outcome)
      → on_channel n s f p ≡ o
      → contains m p.channels ≡ true
      → unless_fault p (drop_error s o) ≡ some q
      → contains m q.channels ≡ true
  drop_error_known f p q none e known h = cc
  drop_error_known f p q (some (b, r)) e known h =
      let same_ones : r.channels ≡ q.channels = ground arith in
      rw same_ones at (on_channel_known f p r known (rw (e, unless_fault)))

module _ (fileno : ℕ → Option ℕ) (m : String) (p q : EPoller) where
  step_known :
      (call : Call)
      → empties call ≡ false
      → contains m p.channels ≡ true
      → step fileno call p ≡ some q
      → contains m q.channels ≡ true
  unfolding step setup_read setup_write add_read_socket remove_read_socket cork_read_socket
      uncork_read_socket add_write_socket remove_write_socket cork_write_socket uncork_write_socket
  step_known (add_read n s) calm known h =
      on_channel_known n m s (add fileno readable s) p q known h
  step_known (remove_read n s) calm known h =
      drop_error_known n m s (take_out fileno s) p q _ refl known h
  step_known (cork_read n s) calm known h = on_channel_known n m s (cork fileno s) p q known h
  step_known (uncork_read n s) calm known h =
      on_channel_known n m s (uncork fileno readable s) p q known h
  step_known (add_write n s) calm known h =
      on_channel_known n m s (add fileno writable s) p q known h
  step_known (remove_write n s) calm known h =
      drop_error_known n m s (take_out fileno s) p q _ refl known h
  step_known (cork_write n s) calm known h = on_channel_known n m s (cork fileno s) p q known h
  step_known (uncork_write n s) calm known h =
      on_channel_known n m s (uncork fileno writable s) p q known h
  step_known (set_up_read n) calm known h =
      ground (arith, contains-insert n m empty_channel p.channels)
  step_known (set_up_write n) calm known h =
      ground (arith, contains-insert n m empty_channel p.channels)
  step_known (clear_reads n) calm known h = cc
  step_known (clear_writes n) calm known h = cc

module _ (fileno : ℕ → Option ℕ) (p q : EPoller) (call : Call) (calm : empties call ≡ false)
    (h : step fileno call p ≡ some q) where
  still_ready : (c : Call) → IsReadyFor fileno p c → IsReadyFor fileno q c
  still_ready (add_read n s) (known, opened) = (step_known fileno n p q call calm known h, opened)
  still_ready (remove_read n s) (known, opened) =
      (step_known fileno n p q call calm known h, opened)
  still_ready (cork_read n s) (known, opened) = (step_known fileno n p q call calm known h, opened)
  still_ready (uncork_read n s) (known, opened) =
      (step_known fileno n p q call calm known h, opened)
  still_ready (add_write n s) (known, opened) = (step_known fileno n p q call calm known h, opened)
  still_ready (remove_write n s) (known, opened) =
      (step_known fileno n p q call calm known h, opened)
  still_ready (cork_write n s) (known, opened) = (step_known fileno n p q call calm known h, opened)
  still_ready (uncork_write n s) (known, opened) =
      (step_known fileno n p q call calm known h, opened)
  still_ready (set_up_read n) r = tt
  still_ready (set_up_write n) r = tt
  still_ready (clear_reads n) r = tt
  still_ready (clear_writes n) r = tt

  pub all_ready : (calls : List Call) → AllReady fileno p calls → AllReady fileno q calls
  all_ready [] r = tt
  all_ready (c ∷ calls) (ready, calm_too, rest) =
      (still_ready c ready, calm_too, all_ready calls rest)

module _ (fileno : ℕ → Option ℕ) where
  -- Any sequence of calls on open sockets under names that were set up, none of which empties a
  -- name, returns from tables that agree; then the kernel polls a socket under a name exactly where
  -- the description of the poller, which knows no tables, says so after these calls.
  pub run-moved :
      (calls : List Call) (p : EPoller)
      → AllConsistent p.channels
      → AllReady fileno p calls
      → (q : EPoller) × (run fileno calls p ≡ some q)
        × ((m : String) (t : ℕ) → polls m t q ≡ is_polled (moved fileno m t calls (seat_of m t p)))
  unfolding run
  run-moved [] p all ready = (p, refl, λ m t. polls-seat_of m t p all)
  run-moved (call ∷ calls) p all (ready, calm, rest) =
      let next : (q : EPoller) × (step fileno call p ≡ some q) =
        step_total fileno call p all ready in
      let agree : AllConsistent next.0.channels =
        step-AllConsistent fileno call p next.0 all next.1 in
      let ending =
        run-moved calls next.0 agree (all_ready fileno p next.0 call calm next.1 calls rest) in
      (
        ending.0,
        rw (next.1, run) ending.1,
        λ m t.
            ending.2 m t
            ∙ ap (λ x. is_polled (moved fileno m t calls x))
                (step-seat_of fileno m t call p next.0 all next.1),
      )
