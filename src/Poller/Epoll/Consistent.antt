-- ===== src/Poller/Epoll/Consistent.antt =====
-- The tables of a name agree with what its epoll object was asked for: the sockets that are in and not
-- corked. A closed socket, which the kernel drops by itself, is the concern of Open.
use Prim.Native.String.{String}
use exaproxy.Common.{
  ℕ, ◌≡◌, refl, nat_beq_iff, true, not, ◌&&◌, Option, some, arith, number_key, text_key,
}
use exaproxy.Dict.{Dict, lookup, insert, contains, contains-insert, contains-remove}
use exaproxy.Poller.Epoll.Kept.{AllOf, Kept, Left, insert-AllOf, step-AllOf}
use exaproxy.Poller.Epoll.{
  Mask, readable, writable, Channel, EPoller, add, take_out, cork, uncork, empty_channel, step,
  Call, add_read, remove_read, cork_read, uncork_read, add_write, remove_write, cork_write,
  uncork_write, set_up_read, set_up_write, clear_reads, clear_writes,
}

pub record IsConsistent (c : Channel) : Type 0 where
  pub polled :
      (s : ℕ) → contains s c.registered ≡ (contains s c.sockets && not (contains s c.corked))
  pub corks : (s : ℕ) → contains s c.corked ≡ true → contains s c.sockets ≡ true

module _ (fileno : ℕ → Option ℕ) (m : Mask) (sock : ℕ) {c : Channel} (v : IsConsistent c) where
  add-IsConsistent : {d : Channel} → Left (add fileno m sock c) d → IsConsistent d
  unfolding add
  add-IsConsistent {d} h = record {
    polled = λ s. ground (
      arith,
      contains-insert sock s true c.sockets,
      contains-insert sock s m c.registered,
      contains-remove sock s (insert sock true c.sockets),
      contains-remove sock s c.sockets,
      v.polled s,
      v.corks s,
      v.corks sock,
      nat_beq_iff sock s,
    );
    corks = λ s. ground (
      arith,
      contains-insert sock s true c.sockets,
      contains-remove sock s (insert sock true c.sockets),
      contains-remove sock s c.sockets,
      v.corks s,
      v.corks sock,
      nat_beq_iff sock s,
    );
  }

  take_out-IsConsistent : {d : Channel} → Left (take_out fileno sock c) d → IsConsistent d
  unfolding take_out
  take_out-IsConsistent {d} h = record {
    polled = λ s. ground (
      arith,
      contains-remove sock s c.sockets,
      contains-remove sock s c.registered,
      contains-remove sock s c.corked,
      v.polled s,
      v.corks s,
      nat_beq_iff sock s,
    );
    corks = λ s. ground (
      arith,
      contains-remove sock s c.sockets,
      contains-remove sock s c.corked,
      v.corks s,
      nat_beq_iff sock s,
    );
  }

  cork-IsConsistent : {d : Channel} → Left (cork fileno sock c) d → IsConsistent d
  unfolding cork
  cork-IsConsistent {d} h = record {
    polled = λ s. ground (
      arith,
      contains-insert sock s true c.corked,
      contains-remove sock s c.registered,
      v.polled s,
      nat_beq_iff sock s,
    );
    corks =
        λ s. ground (arith, contains-insert sock s true c.corked, v.corks s, nat_beq_iff sock s);
  }

  uncork-IsConsistent : {d : Channel} → Left (uncork fileno m sock c) d → IsConsistent d
  unfolding uncork
  uncork-IsConsistent {d} h = record {
    polled = λ s. ground (
      arith,
      contains-remove sock s c.corked,
      contains-remove sock s c.sockets,
      contains-insert sock s m c.registered,
      v.polled s,
      v.corks s,
      nat_beq_iff sock s,
    );
    corks = λ s. ground (
      arith,
      contains-remove sock s c.corked,
      contains-remove sock s c.sockets,
      v.corks s,
      nat_beq_iff sock s,
    );
  }

-- The tables of every name agree.
abbrev pub AllConsistent : Dict String Channel → Type 0
AllConsistent = AllOf (λ n. IsConsistent)

empty-IsConsistent : IsConsistent empty_channel
unfolding contains lookup
empty-IsConsistent = record { polled = λ s. refl; corks = λ s h. h }

pub insert-AllConsistent :
    (name : String) (c : Channel) (chs : Dict String Channel)
    → AllConsistent chs
    → IsConsistent c
    → AllConsistent (insert name c chs)
insert-AllConsistent = insert-AllOf (λ n. IsConsistent)

module _ (fileno : ℕ → Option ℕ) where
  every_call-IsConsistent :
      (call : Call) → Kept (λ n. IsConsistent) (λ n. empty-IsConsistent) fileno call
  every_call-IsConsistent (add_read n s) = λ c v d. add-IsConsistent fileno readable s v
  every_call-IsConsistent (remove_read n s) = λ c v d. take_out-IsConsistent fileno readable s v
  every_call-IsConsistent (cork_read n s) = λ c v d. cork-IsConsistent fileno readable s v
  every_call-IsConsistent (uncork_read n s) = λ c v d. uncork-IsConsistent fileno readable s v
  every_call-IsConsistent (add_write n s) = λ c v d. add-IsConsistent fileno writable s v
  every_call-IsConsistent (remove_write n s) = λ c v d. take_out-IsConsistent fileno writable s v
  every_call-IsConsistent (cork_write n s) = λ c v d. cork-IsConsistent fileno writable s v
  every_call-IsConsistent (uncork_write n s) = λ c v d. uncork-IsConsistent fileno writable s v
  every_call-IsConsistent (set_up_read n) = tt
  every_call-IsConsistent (set_up_write n) = tt
  every_call-IsConsistent (clear_reads n) = tt
  every_call-IsConsistent (clear_writes n) = tt

  -- A call that returns leaves tables that agree with what the epoll objects were asked for.
  pub step-AllConsistent :
      (call : Call) (p q : EPoller)
      → AllConsistent p.channels
      → step fileno call p ≡ some q
      → AllConsistent q.channels
  step-AllConsistent call p q all =
      step-AllOf (λ n. IsConsistent) (λ n. empty-IsConsistent) fileno call p q all
        (every_call-IsConsistent call)
