-- ===== src/Poller/Epoll/Open.antt =====
-- lib/exaproxy/network/async/epoll.py: the calls while the sockets in the tables are open. The kernel takes a
-- closed socket out of an epoll object by itself, so that what it polls is what it was asked for only then.
use Prim.Native.String.{String}
use exaproxy.Common.{
  ℕ, ◌≡◌, ◌≢◌, true, Option, none, some, arith, number_key, text_key, nat_beq_iff,
}
use exaproxy.Dict.{Dict, lookup, insert, contains, contains-insert, contains-remove}
use exaproxy.Poller.Epoll.Kept.{AllOf, Kept, Left, step-AllOf}
use exaproxy.Poller.Epoll.Consistent.{AllConsistent, step-AllConsistent}
use exaproxy.Poller.Epoll.Safety.{IsReadyFor, step_total}
use exaproxy.Poller.Epoll.{
  Mask, readable, writable, Channel, EPoller, add, take_out, cork, uncork, empty_channel, step,
  Call, add_read, remove_read, cork_read, uncork_read, add_write, remove_write, cork_write,
  uncork_write, set_up_read, set_up_write, clear_reads, clear_writes,
}

module _ (fileno : ℕ → Option ℕ) where
  abbrev pub IsOpen : Channel → Type 0
  IsOpen c = (s : ℕ) → contains s c.sockets ≡ true → fileno s ≢ none

  abbrev pub AllOpen : Dict String Channel → Type 0
  AllOpen = AllOf (λ n. IsOpen)

  empty-IsOpen : IsOpen empty_channel
  unfolding contains lookup
  empty-IsOpen s h e = absurd cc

  module _ (m : Mask) (sock : ℕ) (c : Channel) (v : IsOpen c) where
    add-IsOpen : {d : Channel} → Left (add fileno m sock c) d → IsOpen d
    unfolding add
    add-IsOpen {d} h s there e = ground (
      arith,
      contains-insert sock s true c.sockets,
      contains-remove sock s (insert sock true c.sockets),
      v s,
      nat_beq_iff sock s,
    )

    take_out-IsOpen : {d : Channel} → Left (take_out fileno sock c) d → IsOpen d
    unfolding take_out
    take_out-IsOpen {d} h s there e = ground (arith, contains-remove sock s c.sockets, v s)

    cork-IsOpen : {d : Channel} → Left (cork fileno sock c) d → IsOpen d
    unfolding cork
    cork-IsOpen {d} h s there e = ground (arith, v s)

    uncork-IsOpen : {d : Channel} → Left (uncork fileno m sock c) d → IsOpen d
    unfolding uncork
    uncork-IsOpen {d} h s there e = ground (arith, contains-remove sock s c.sockets, v s)

  every_call-IsOpen : (call : Call) → Kept (λ n. IsOpen) (λ n. empty-IsOpen) fileno call
  every_call-IsOpen (add_read n s) = λ c v d. add-IsOpen readable s c v
  every_call-IsOpen (remove_read n s) = λ c v d. take_out-IsOpen readable s c v
  every_call-IsOpen (cork_read n s) = λ c v d. cork-IsOpen readable s c v
  every_call-IsOpen (uncork_read n s) = λ c v d. uncork-IsOpen readable s c v
  every_call-IsOpen (add_write n s) = λ c v d. add-IsOpen writable s c v
  every_call-IsOpen (remove_write n s) = λ c v d. take_out-IsOpen writable s c v
  every_call-IsOpen (cork_write n s) = λ c v d. cork-IsOpen writable s c v
  every_call-IsOpen (uncork_write n s) = λ c v d. uncork-IsOpen writable s c v
  every_call-IsOpen (set_up_read n) = tt
  every_call-IsOpen (set_up_write n) = tt
  every_call-IsOpen (clear_reads n) = tt
  every_call-IsOpen (clear_writes n) = tt

  -- While the sockets in the tables are open, a call on an open socket under a name that was set up (or any
  -- call that sets up or clears a name) returns, and the kernel goes on polling under each name exactly the
  -- sockets that are in and not corked; only sockets that are in are corked, and all of them are open.
  pub step-AllOpen :
      (call : Call) (p : EPoller)
      → AllConsistent p.channels
      → AllOpen p.channels
      → IsReadyFor fileno p call
      → (q : EPoller) × (step fileno call p ≡ some q)
        × AllConsistent q.channels
        × AllOpen q.channels
  step-AllOpen call p all opened ready =
      let (q, went) = step_total fileno call p all ready in
      (
        q,
        went,
        step-AllConsistent fileno call p q all went,
        step-AllOf (λ n. IsOpen) (λ n. empty-IsOpen) fileno call p q opened (every_call-IsOpen call)
            went,
      )
