-- ===== src/Poller/Kqueue/Filtered.antt =====
-- lib/exaproxy/network/async/kqueue.py: a name whose calls are all for reading, or all for writing, is
-- registered with that one filter.
use Prim.Native.String.{String}
use exaproxy.Common.{ℕ, ◌≡◌, Option, some, List, [], ◌∷◌, arith, number_key, text_key}
use exaproxy.Dict.{Dict, lookup, lookup-insert, lookup-remove}
use exaproxy.Poller.Epoll.Kept.{AllOf, Kept, Left, step-AllOf}
use exaproxy.Poller.Epoll.{
  Mask, readable, writable, Channel, EPoller, add, take_out, cork, uncork, empty_channel, step,
  Call, add_read, remove_read, cork_read, uncork_read, add_write, remove_write, cork_write,
  uncork_write, set_up_read, set_up_write, clear_reads, clear_writes,
}

-- What is registered under a name is registered with its filter.
abbrev pub IsFiltered : Mask → Channel → Type 0
IsFiltered m c = (s : ℕ) (k : Mask) → lookup s c.registered ≡ some k → k ≡ m

module _ (filter : String → Mask) where
  abbrev pub AllFiltered : Dict String Channel → Type 0
  AllFiltered = AllOf (λ n. IsFiltered (filter n))

  -- A call on a socket is for the filter of its name.
  abbrev pub IsSuited : Call → Type 0
  IsSuited (add_read n s) = filter n ≡ readable
  IsSuited (remove_read n s) = filter n ≡ readable
  IsSuited (cork_read n s) = filter n ≡ readable
  IsSuited (uncork_read n s) = filter n ≡ readable
  IsSuited (add_write n s) = filter n ≡ writable
  IsSuited (remove_write n s) = filter n ≡ writable
  IsSuited (cork_write n s) = filter n ≡ writable
  IsSuited (uncork_write n s) = filter n ≡ writable
  IsSuited _ = Unit

  abbrev pub AllSuited : List Call → Type 0
  AllSuited [] = Unit
  AllSuited (call ∷ calls) = IsSuited call × AllSuited calls

empty-IsFiltered : (m : Mask) → IsFiltered m empty_channel
unfolding lookup
empty-IsFiltered m s k h = absurd cc

module _ (fileno : ℕ → Option ℕ) (f m : Mask) (sock : ℕ) (same_one : f ≡ m) (c : Channel)
    (v : IsFiltered f c) where
  add-IsFiltered : (d : Channel) → Left (add fileno m sock c) d → IsFiltered f d
  unfolding add
  add-IsFiltered d h s k found = ground (arith, lookup-insert sock s m c.registered, v s k)

  take_out-IsFiltered : (d : Channel) → Left (take_out fileno sock c) d → IsFiltered f d
  unfolding take_out
  take_out-IsFiltered d h s k found = ground (arith, lookup-remove sock s c.registered, v s k)

  cork-IsFiltered : (d : Channel) → Left (cork fileno sock c) d → IsFiltered f d
  unfolding cork
  cork-IsFiltered d h s k found = ground (arith, lookup-remove sock s c.registered, v s k)

  uncork-IsFiltered : (d : Channel) → Left (uncork fileno m sock c) d → IsFiltered f d
  unfolding uncork
  uncork-IsFiltered d h s k found = ground (arith, lookup-insert sock s m c.registered, v s k)

module _ (filter : String → Mask) (fileno : ℕ → Option ℕ) where
  suited-IsFiltered :
      (call : Call)
      → IsSuited filter call
      → Kept (λ n. IsFiltered (filter n)) (λ n. empty-IsFiltered (filter n)) fileno call
  suited-IsFiltered (add_read n s) e = λ c v. add-IsFiltered fileno (filter n) readable s e c v
  suited-IsFiltered (remove_read n s) e =
      λ c v. take_out-IsFiltered fileno (filter n) readable s e c v
  suited-IsFiltered (cork_read n s) e = λ c v. cork-IsFiltered fileno (filter n) readable s e c v
  suited-IsFiltered (uncork_read n s) e =
      λ c v. uncork-IsFiltered fileno (filter n) readable s e c v
  suited-IsFiltered (add_write n s) e = λ c v. add-IsFiltered fileno (filter n) writable s e c v
  suited-IsFiltered (remove_write n s) e =
      λ c v. take_out-IsFiltered fileno (filter n) writable s e c v
  suited-IsFiltered (cork_write n s) e = λ c v. cork-IsFiltered fileno (filter n) writable s e c v
  suited-IsFiltered (uncork_write n s) e =
      λ c v. uncork-IsFiltered fileno (filter n) writable s e c v
  suited-IsFiltered (set_up_read n) e = tt
  suited-IsFiltered (set_up_write n) e = tt
  suited-IsFiltered (clear_reads n) e = tt
  suited-IsFiltered (clear_writes n) e = tt

  pub step-AllFiltered :
      (call : Call) (p q : EPoller)
      → AllFiltered filter p.channels
      → IsSuited filter call
      → step fileno call p ≡ some q
      → AllFiltered filter q.channels
  step-AllFiltered call p q all suited =
      step-AllOf (λ n. IsFiltered (filter n)) (λ n. empty-IsFiltered (filter n)) fileno call p q all
        (suited-IsFiltered call suited)
