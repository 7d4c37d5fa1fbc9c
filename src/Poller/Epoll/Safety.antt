-- ===== src/Poller/Epoll/Safety.antt =====
-- Which calls end in an exception that nothing catches.
use Prim.Native.String.{String}
use exaproxy.Common.{
  ℕ, ◌≡◌, ◌≢◌, refl, [], inl, inr, true, Option, none, some, arith, number_key, text_key,
  Option-cases,
}
use text.Mathlib.TextEquality.{eq_iff}
use exaproxy.Dict.{lookup, remove, contains, contains-remove, lookup-insert, lookup-remove}
use exaproxy.Poller.Epoll.{
  Mask, readable, writable, Channel, EPoller, Change, fault, add, take_out, cork, uncork,
  on_channel, Outcome, unless_fault, drop_error, empty_channel, setup_read, setup_write, clear_read,
  clear_write, add_read_socket, remove_read_socket, cork_read_socket, uncork_read_socket,
  add_write_socket, remove_write_socket, cork_write_socket, uncork_write_socket, step, Call,
  add_read, remove_read, cork_read, uncork_read, add_write, remove_write, cork_write, uncork_write,
  set_up_read, set_up_write, clear_reads, clear_writes,
}
use exaproxy.Poller.Epoll.Consistent.{IsConsistent, AllConsistent}

-- A call on a socket needs a name that was set up and a socket that is open.
abbrev pub IsReady : (ℕ → Option ℕ) → EPoller → String → ℕ → Type 0
IsReady fileno p n s = (contains n p.channels ≡ true) × (fileno s ≢ none)

abbrev pub IsReadyFor : (ℕ → Option ℕ) → EPoller → Call → Type 0
IsReadyFor fileno p (add_read n s) = IsReady fileno p n s
IsReadyFor fileno p (remove_read n s) = IsReady fileno p n s
IsReadyFor fileno p (cork_read n s) = IsReady fileno p n s
IsReadyFor fileno p (uncork_read n s) = IsReady fileno p n s
IsReadyFor fileno p (add_write n s) = IsReady fileno p n s
IsReadyFor fileno p (remove_write n s) = IsReady fileno p n s
IsReadyFor fileno p (cork_write n s) = IsReady fileno p n s
IsReadyFor fileno p (uncork_write n s) = IsReady fileno p n s
IsReadyFor fileno p _ = Unit

module _ (fileno : ℕ → Option ℕ) (m : Mask) (sock : ℕ) {c : Channel} (v : IsConsistent c)
    (opened : fileno sock ≢ none) where
  add-ne-fault : add fileno m sock c ≢ fault
  unfolding add
  add-ne-fault h = ground (arith, v.polled sock)

  take_out-ne-fault : take_out fileno sock c ≢ fault
  unfolding take_out
  take_out-ne-fault h = ground (arith, v.polled sock)

  cork-ne-fault : cork fileno sock c ≢ fault
  unfolding cork
  cork-ne-fault h = ground (arith, v.polled sock)

  uncork-ne-fault : uncork fileno m sock c ≢ fault
  unfolding uncork
  uncork-ne-fault h = ground (arith, v.polled sock)

on_channel-ne-none :
    (n : String) (s : ℕ) (f : Channel → Change) (p : EPoller)
    → AllConsistent p.channels
    → contains n p.channels ≡ true
    → ((c : Channel) → IsConsistent c → f c ≢ fault)
    → on_channel n s f p ≢ none
unfolding contains
on_channel-ne-none n s f p all known k h = elim (Option-cases (lookup n p.channels)) [
  | inl missing ↦ ground arith
  | inr (c, found) ↦ ground (arith, k c (all n c found))
]

drop_error-ne-none : (s : ℕ) (o : Outcome) → o ≢ none → drop_error s o ≢ none
drop_error-ne-none s none k h = k h
drop_error-ne-none s (some (b, q)) k h = ground arith

returns : (p : EPoller) (o : Outcome) → o ≢ none → (q : EPoller) × (unless_fault p o ≡ some q)
returns p none k = absurd (k refl)
returns p (some (b, q)) k = (q, refl)

module _ (fileno : ℕ → Option ℕ) where
  -- From tables that agree, a call on an open socket under a name that was set up returns: no
  -- socket is registered twice, and none is taken out of an epoll object that does not have it.
  pub step_total :
      (call : Call) (p : EPoller)
      → AllConsistent p.channels
      → IsReadyFor fileno p call
      → (q : EPoller) × (step fileno call p ≡ some q)
  unfolding step add_read_socket remove_read_socket cork_read_socket uncork_read_socket
      add_write_socket remove_write_socket cork_write_socket uncork_write_socket
  step_total (add_read n s) p all r = returns p _ (
      on_channel-ne-none n s (add fileno readable s) p all r.0
        (λ c v. add-ne-fault fileno readable s v r.1))
  step_total (remove_read n s) p all r = returns p _ (
      drop_error-ne-none s _ (
        on_channel-ne-none n s (take_out fileno s) p all r.0
          (λ c v. take_out-ne-fault fileno readable s v r.1)))
  step_total (cork_read n s) p all r = returns p _ (
      on_channel-ne-none n s (cork fileno s) p all r.0
        (λ c v. cork-ne-fault fileno readable s v r.1))
  step_total (uncork_read n s) p all r = returns p _ (
      on_channel-ne-none n s (uncork fileno readable s) p all r.0
        (λ c v. uncork-ne-fault fileno readable s v r.1))
  step_total (add_write n s) p all r = returns p _ (
      on_channel-ne-none n s (add fileno writable s) p all r.0
        (λ c v. add-ne-fault fileno writable s v r.1))
  step_total (remove_write n s) p all r = returns p _ (
      drop_error-ne-none s _ (
        on_channel-ne-none n s (take_out fileno s) p all r.0
          (λ c v. take_out-ne-fault fileno writable s v r.1)))
  step_total (cork_write n s) p all r = returns p _ (
      on_channel-ne-none n s (cork fileno s) p all r.0
        (λ c v. cork-ne-fault fileno writable s v r.1))
  step_total (uncork_write n s) p all r = returns p _ (
      on_channel-ne-none n s (uncork fileno writable s) p all r.0
        (λ c v. uncork-ne-fault fileno writable s v r.1))
  step_total (set_up_read n) p all r = (setup_read n p, refl)
  step_total (set_up_write n) p all r = (setup_write n p, refl)
  step_total (clear_reads n) p all r = (clear_read n p, refl)
  step_total (clear_writes n) p all r = (clear_write n p, refl)

-- Clearing a name leaves it set up and empty if it had sockets; a name that had none is forgotten,
-- and the next call under it, such as adding a socket, ends in a KeyError.
pub clear_read_cases :
    (fileno : ℕ → Option ℕ) (n : String) (s : ℕ) (p : EPoller) (c : Channel)
    → lookup n p.channels ≡ some c
    → (c.sockets ≢ [] → lookup n (clear_read n p).channels ≡ some empty_channel)
      × (c.sockets ≡ [] → add_read_socket fileno n s (clear_read n p) ≡ none)
unfolding clear_read add_read_socket
clear_read_cases fileno n s p c found = (
  (λ some_left. ground (
    arith,
    eq_iff n n,
    contains-remove n n p.channels,
    lookup-insert n n empty_channel (remove n p.channels),
  )),
  (λ none_left. ground (arith, eq_iff n n, lookup-remove n n p.channels)),
)
