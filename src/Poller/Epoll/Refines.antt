-- ===== src/Poller/Epoll/Refines.antt =====
-- The tables of an epoll poller show each socket in the seat that the calls gave it.
use Prim.Native.String.{String}
use exaproxy.Common.{
  ℕ, ◌≡◌, ◌≢◌, inl, inr, refl, nat_beq_iff, Bool, true, ◌&&◌, Option, none, some, [], ◌∷◌, arith,
  number_key, text_key, Option-cases, ◌==◌, subst, ap, if◌then◌else◌, ◌∙◌, sym,
}
use exaproxy.Dict.{
  Dict, lookup, insert, remove, contains, contains-insert, contains-remove, lookup-insert,
  lookup-remove,
}
use exaproxy.Poller.Epoll.{
  Mask, readable, writable, Channel, EPoller, Change, same, fault, done, closed, add, take_out,
  cork, uncork, empty_channel, on_channel, settle, Outcome, unless_fault, drop_error, setup_read,
  setup_write, clear_popped, clear_read, clear_write, add_read_socket, remove_read_socket,
  cork_read_socket, uncork_read_socket, add_write_socket, remove_write_socket, cork_write_socket,
  uncork_write_socket, step, Call, add_read, remove_read, cork_read, uncork_read, add_write,
  remove_write, cork_write, uncork_write, set_up_read, set_up_write, clear_reads, clear_writes,
}
use exaproxy.Poller.Epoll.Consistent.{IsConsistent, AllConsistent}
use exaproxy.Poller.Seats.{Seat, out, polled, held, join, leave, hold, resume, at, move}

abbrev pub seat_in : ℕ → Channel → Seat
seat_in t c = if contains t c.sockets then (if contains t c.corked then held else polled) else out

abbrev effect : Change → Channel → Channel
effect same c = c
effect fault c = c
effect (done d) c = d
effect (closed d) c = d

module _ (fileno : ℕ → Option ℕ) (m : Mask) (s t : ℕ) {c : Channel} (v : IsConsistent c) where
  add_seat :
      add fileno m s c ≢ fault
      → seat_in t (effect (add fileno m s c) c) ≡ at (s == t) (join (fileno s)) (seat_in t c)
  unfolding add
  add_seat h = ground (
    arith,
    contains-insert s t true c.sockets,
    contains-remove s t (insert s true c.sockets),
    v.polled s,
    v.corks s,
    v.corks t,
    nat_beq_iff s t,
  )

  take_out_seat :
      take_out fileno s c ≢ fault
      → seat_in t (effect (take_out fileno s c) c) ≡ at (s == t) leave (seat_in t c)
  unfolding take_out
  take_out_seat h = ground (
    arith,
    contains-remove s t c.sockets,
    contains-remove s t c.corked,
    v.polled s,
    v.corks s,
    v.corks t,
    nat_beq_iff s t,
  )

  cork_seat :
      cork fileno s c ≢ fault
      → seat_in t (effect (cork fileno s c) c) ≡ at (s == t) hold (seat_in t c)
  unfolding cork
  cork_seat h =
      ground (arith, contains-insert s t true c.corked, v.polled s, v.corks s, nat_beq_iff s t)

  uncork_seat :
      uncork fileno m s c ≢ fault
      → seat_in t (effect (uncork fileno m s c) c) ≡ at (s == t) (resume (fileno s)) (seat_in t c)
  unfolding uncork
  uncork_seat h = ground (
    arith,
    contains-remove s t c.sockets,
    contains-remove s t c.corked,
    v.polled s,
    v.corks s,
    v.corks t,
    nat_beq_iff s t,
  )

-- The seat that the tables show for a socket under a name.
abbrev pub seat_of : String → ℕ → EPoller → Seat
seat_of m t p = elim (lookup m p.channels) [ none ↦ out | some c ↦ seat_in t c ]

module _ (n m : String) (s t : ℕ) (go : Seat → Seat) where
  settle_seat :
      (r : Change) (p : EPoller) {q : EPoller} {b : Bool} {c : Channel}
      → lookup n p.channels ≡ some c
      → (r ≢ fault → seat_in t (effect r c) ≡ at (s == t) go (seat_in t c))
      → settle n s p r ≡ some (b, q)
      → seat_of m t q ≡ at (n == m && s == t) go (seat_of m t p)
  settle_seat same p {q} {b} {c} found k h =
      let e : p.channels ≡ q.channels = ground arith in
      ground (arith, text_key.same_iff n m, k (λ x. cc))
  settle_seat fault p found k h = cc
  settle_seat (done d) p {q} {b} {c} found k h =
      let e : insert n d p.channels ≡ q.channels = ground arith in
      ground (arith, text_key.same_iff n m, k (λ x. cc), lookup-insert n m d p.channels)
  settle_seat (closed d) p {q} {b} {c} found k h =
      let e : insert n d p.channels ≡ q.channels = ground arith in
      ground (arith, text_key.same_iff n m, k (λ x. cc), lookup-insert n m d p.channels)

  on_channel_seat :
      (f : Channel → Change) (p : EPoller) {q : EPoller} (o : Outcome)
      → AllConsistent p.channels
      → ((c : Channel)
          → IsConsistent c
          → f c ≢ fault
          → seat_in t (effect (f c) c) ≡ at (s == t) go (seat_in t c))
      → on_channel n s f p ≡ o
      → unless_fault p o ≡ some q
      → seat_of m t q ≡ at (n == m && s == t) go (seat_of m t p)
  on_channel_seat f p {q} none all k e h = cc
  on_channel_seat f p {q} (some (b, r)) all k e h = elim (Option-cases (lookup n p.channels)) [
    | inl missing ↦ cc (rw (missing, on_channel) at e)
    | inr (c, found) ↦
        let same_one : r ≡ q = ground arith in
        subst (λ (x : EPoller). seat_of m t x ≡ at (n == m && s == t) go (seat_of m t p)) same_one
          (settle_seat (f c) p found (k c (all n c found)) (rw (found, on_channel) at e))
  ]

  drop_error_seat :
      (f : Channel → Change) (p : EPoller) {q : EPoller} (o : Outcome)
      → AllConsistent p.channels
      → ((c : Channel)
          → IsConsistent c
          → f c ≢ fault
          → seat_in t (effect (f c) c) ≡ at (s == t) go (seat_in t c))
      → on_channel n s f p ≡ o
      → unless_fault p (drop_error s o) ≡ some q
      → seat_of m t q ≡ at (n == m && s == t) go (seat_of m t p)
  drop_error_seat f p {q} none all k e h = cc
  drop_error_seat f p {q} (some (b, r)) all k e h =
      let same_ones : r.channels ≡ q.channels = ground arith in
      let moved : seat_of m t r ≡ at (n == m && s == t) go (seat_of m t p) =
        on_channel_seat f p (some (b, r)) all k e refl in
      rw same_ones at moved

setup_seat : (n m : String) (t : ℕ) (p : EPoller) → seat_of m t (setup_read n p) ≡ seat_of m t p
unfolding setup_read contains lookup
setup_seat n m t p =
    ground (arith, text_key.same_iff n m, lookup-insert n m empty_channel p.channels)

clear_seat :
    (n m : String) (t : ℕ) (p : EPoller) (o : Option Channel)
    → lookup n p.channels ≡ o
    → seat_of m t (clear_popped n p o (setup_read n)) ≡ at (n == m) leave (seat_of m t p)
clear_seat n m t p none missing = ground (arith, text_key.same_iff n m)
clear_seat n m t p (some c) found = go c.sockets
  where
    popped : EPoller
    popped = record p { channels = remove n p.channels }

    gone : seat_of m t popped ≡ at (n == m) leave (seat_of m t p)
    gone = ground (arith, lookup-remove n m p.channels)

    go :
        (l : Dict ℕ Bool)
        → seat_of m t (elim l [ [] ↦ popped | x ∷ r ↦ setup_read n popped ])
          ≡ at (n == m) leave (seat_of m t p)
    go [] = gone
    go (x ∷ r) = setup_seat n m t popped ∙ gone

module _ (fileno : ℕ → Option ℕ) (m : String) (t : ℕ) where
  -- From tables that agree, a call that returns moves the seat of a socket under a name as the
  -- description of the poller says, whether the call names that socket or not.
  pub step-seat_of :
      (call : Call) (p q : EPoller)
      → AllConsistent p.channels
      → step fileno call p ≡ some q
      → seat_of m t q ≡ move fileno m t call (seat_of m t p)
  unfolding step setup_write clear_read clear_write add_read_socket remove_read_socket
      cork_read_socket uncork_read_socket add_write_socket remove_write_socket cork_write_socket
      uncork_write_socket
  step-seat_of (add_read n s) p q all h =
      on_channel_seat n m s t (join (fileno s)) (add fileno readable s) p _ all
        (λ c v. add_seat fileno readable s t v) refl h
  step-seat_of (remove_read n s) p q all h =
      drop_error_seat n m s t leave (take_out fileno s) p _ all
        (λ c v. take_out_seat fileno readable s t v) refl h
  step-seat_of (cork_read n s) p q all h =
      on_channel_seat n m s t hold (cork fileno s) p _ all (λ c v. cork_seat fileno readable s t v)
        refl h
  step-seat_of (uncork_read n s) p q all h =
      on_channel_seat n m s t (resume (fileno s)) (uncork fileno readable s) p _ all
        (λ c v. uncork_seat fileno readable s t v) refl h
  step-seat_of (add_write n s) p q all h =
      on_channel_seat n m s t (join (fileno s)) (add fileno writable s) p _ all
        (λ c v. add_seat fileno writable s t v) refl h
  step-seat_of (remove_write n s) p q all h =
      drop_error_seat n m s t leave (take_out fileno s) p _ all
        (λ c v. take_out_seat fileno writable s t v) refl h
  step-seat_of (cork_write n s) p q all h =
      on_channel_seat n m s t hold (cork fileno s) p _ all (λ c v. cork_seat fileno writable s t v)
        refl h
  step-seat_of (uncork_write n s) p q all h =
      on_channel_seat n m s t (resume (fileno s)) (uncork fileno writable s) p _ all
        (λ c v. uncork_seat fileno writable s t v) refl h
  step-seat_of (set_up_read n) p q all h =
      let same_ones : setup_read n p ≡ q = cc in
      rw (setup_seat n m t p) at (ap (seat_of m t) (sym same_ones))
  step-seat_of (set_up_write n) p q all h =
      let same_ones : setup_read n p ≡ q = unfold setup_read in cc in
      rw (setup_seat n m t p) at (ap (seat_of m t) (sym same_ones))
  step-seat_of (clear_reads n) p q all h =
      let o : Option Channel = lookup n p.channels in
      let same_ones : q ≡ clear_popped n p o (setup_read n) = cc in
      ap (seat_of m t) same_ones ∙ clear_seat n m t p o refl
  step-seat_of (clear_writes n) p q all h =
      let o : Option Channel = lookup n p.channels in
      let same_ones : q ≡ clear_popped n p o (setup_read n) = unfold setup_read in cc in
      ap (seat_of m t) same_ones ∙ clear_seat n m t p o refl
