-- ===== src/Poller/Kqueue/Same.antt =====
-- From tables that agree, the kqueue poller does what the epoll poller does.
use Prim.Native.String.{String}
use exaproxy.Common.{
  ℕ, ◌≡◌, ◌≢◌, inl, inr, refl, true, Option, none, some, List, [], ◌∷◌, arith, number_key, text_key,
  Option-cases, ap, subst,
}
use exaproxy.Dict.{lookup, contains, contains-lookup}
use exaproxy.Poller.Epoll.{
  Mask, readable, writable, Channel, EPoller, Change, same, fault, done, closed, Outcome,
  on_channel, store, forget_fd, drop_error, unless_fault, empty_channel, clear_popped, Call,
  add_read, remove_read, cork_read, uncork_read, add_write, remove_write, cork_write, uncork_write,
  set_up_read, set_up_write, clear_reads, clear_writes,
}
use exaproxy.Poller.Epoll as Epoll
use exaproxy.Poller.Epoll.Consistent.{IsConsistent, AllConsistent, step-AllConsistent}
use exaproxy.Poller.Epoll.Safety.{IsReadyFor, step_total}
use exaproxy.Poller.Epoll.Runs.{AllReady, run, all_ready}
use exaproxy.Poller.Epoll.Descriptors.{IsDistinct, IsIndexed, AllIndexed, step-AllIndexed}
use exaproxy.Poller.Kqueue.Filtered.{IsFiltered, AllFiltered, IsSuited, AllSuited, step-AllFiltered}
use exaproxy.Poller.Kqueue.{
  is_for, add, take_out, cork, uncork, step, setup_read, setup_write, clear_read, clear_write,
  add_read_socket, remove_read_socket, cork_read_socket, uncork_read_socket, add_write_socket,
  remove_write_socket, cork_write_socket, uncork_write_socket,
}

is_for-same : (m : Mask) → is_for m (some m) ≡ true
is_for-same readable = refl
is_for-same writable = refl

module _ (fileno : ℕ → Option ℕ) (m : Mask) (sock : ℕ) (c : Channel) (v : IsConsistent c)
    (k : IsIndexed fileno c) (only : IsFiltered m c) (opened : fileno sock ≢ none) where
  is_for-contains : is_for m (lookup sock c.registered) ≡ contains sock c.registered
  is_for-contains = elim (Option-cases (lookup sock c.registered)) [
    | inl nothing ↦ ground (arith, contains-lookup sock c.registered)
    | inr (f, found) ↦
        let one : f ≡ m = only sock f found in
        ground (arith, contains-lookup sock c.registered, is_for-same m)
  ]

  same_add : add fileno m sock c ≡ Epoll.add fileno m sock c
  unfolding add Epoll.add
  same_add = elim (Option-cases (fileno sock)) [
    | inl gone ↦ absurd (opened gone)
    | inr (fd, e) ↦ ground (arith, k sock fd e, v.polled sock, contains-lookup fd c.fdtosock)
  ]

  same_take_out : take_out fileno m sock c ≡ Epoll.take_out fileno sock c
  unfolding take_out Epoll.take_out
  same_take_out = ground (arith, is_for-contains)

  same_cork : cork fileno m sock c ≡ Epoll.cork fileno sock c
  unfolding cork Epoll.cork
  same_cork = ground (arith, is_for-contains)

  same_uncork : uncork fileno m sock c ≡ Epoll.uncork fileno m sock c
  unfolding uncork Epoll.uncork
  same_uncork = ground (arith, v.polled sock)

module _ (filter : String → Mask) (fileno : ℕ → Option ℕ) (p : EPoller)
    (all : AllConsistent p.channels) (fds : AllIndexed fileno p.channels)
    (only : AllFiltered filter p.channels) where
  same_on_channel :
      (n : String) (m : Mask) (s : ℕ) (f g : Channel → Change)
      → filter n ≡ m
      → ((c : Channel) → IsConsistent c → IsIndexed fileno c → IsFiltered m c → f c ≡ g c)
      → on_channel n s f p ≡ on_channel n s g p
  same_on_channel n m s f g e h = elim (Option-cases (lookup n p.channels)) [
    | inl missing ↦ ground arith
    | inr (c, found) ↦
        let fit : IsFiltered m c = subst (λ (k : Mask). IsFiltered k c) e (only n c found) in
        ground (arith, h c (all n c found) (fds n c found) fit)
  ]

  step-step :
      (call : Call)
      → IsReadyFor fileno p call
      → IsSuited filter call
      → step fileno call p ≡ Epoll.step fileno call p
  unfolding step Epoll.step add_read_socket remove_read_socket cork_read_socket uncork_read_socket
      add_write_socket remove_write_socket cork_write_socket uncork_write_socket
      Epoll.add_read_socket Epoll.remove_read_socket Epoll.cork_read_socket Epoll.uncork_read_socket
      Epoll.add_write_socket Epoll.remove_write_socket Epoll.cork_write_socket
      Epoll.uncork_write_socket setup_read setup_write clear_read clear_write Epoll.setup_read
      Epoll.setup_write Epoll.clear_read Epoll.clear_write
  step-step (add_read n s) (known, opened) suited = ap (unless_fault p) (
      same_on_channel n readable s (add fileno readable s) (Epoll.add fileno readable s) suited
        (λ c v k o. same_add fileno readable s c v k o opened))
  step-step (remove_read n s) (known, opened) suited =
      ap (λ o. unless_fault p (drop_error s o))
        (same_on_channel n readable s (take_out fileno readable s) (Epoll.take_out fileno s) suited
          (λ c v k o. same_take_out fileno readable s c v k o opened))
  step-step (cork_read n s) (known, opened) suited = ap (unless_fault p) (
      same_on_channel n readable s (cork fileno readable s) (Epoll.cork fileno s) suited
        (λ c v k o. same_cork fileno readable s c v k o opened))
  step-step (uncork_read n s) (known, opened) suited = ap (unless_fault p) (
      same_on_channel n readable s (uncork fileno readable s) (Epoll.uncork fileno readable s)
        suited (λ c v k o. same_uncork fileno readable s c v k o opened))
  step-step (add_write n s) (known, opened) suited = ap (unless_fault p) (
      same_on_channel n writable s (add fileno writable s) (Epoll.add fileno writable s) suited
        (λ c v k o. same_add fileno writable s c v k o opened))
  step-step (remove_write n s) (known, opened) suited =
      ap (λ o. unless_fault p (drop_error s o))
        (same_on_channel n writable s (take_out fileno writable s) (Epoll.take_out fileno s) suited
          (λ c v k o. same_take_out fileno writable s c v k o opened))
  step-step (cork_write n s) (known, opened) suited = ap (unless_fault p) (
      same_on_channel n writable s (cork fileno writable s) (Epoll.cork fileno s) suited
        (λ c v k o. same_cork fileno writable s c v k o opened))
  step-step (uncork_write n s) (known, opened) suited = ap (unless_fault p) (
      same_on_channel n writable s (uncork fileno writable s) (Epoll.uncork fileno writable s)
        suited (λ c v k o. same_uncork fileno writable s c v k o opened))
  step-step (set_up_read n) r e = refl
  step-step (set_up_write n) r e = refl
  step-step (clear_reads n) r e = refl
  step-step (clear_writes n) r e = refl

unfoldable pub run_kqueue : (ℕ → Option ℕ) → List Call → EPoller → Option EPoller
run_kqueue fileno [] p = some p
run_kqueue fileno (call ∷ calls) p = elim (step fileno call p) [
  | none ↦ none
  | some q ↦ run_kqueue fileno calls q
]

-- From tables that agree, with open sockets that have descriptors of their own and are known by them, and
-- with each name used for reading only or for writing only, a sequence of calls that the epoll poller is
-- ready for has on the kqueue poller the very outcome that it has on the epoll poller: no assertion
-- fails, no filter is taken out that is not there, and the tables are the same.
pub run_kqueue-run :
    (filter : String → Mask) (fileno : ℕ → Option ℕ) (calls : List Call) (p : EPoller)
    → IsDistinct fileno
    → AllConsistent p.channels
    → AllIndexed fileno p.channels
    → AllFiltered filter p.channels
    → AllSuited filter calls
    → AllReady fileno p calls
    → run_kqueue fileno calls p ≡ run fileno calls p
unfolding run_kqueue run
run_kqueue-run filter fileno [] p distinct all fds only suits ready = refl
run_kqueue-run filter fileno (call ∷ calls) p distinct all fds only (suited, suits)
      (ready, calm, rest) =
    let (q, e) = step_total fileno call p all ready in
    let still : AllReady fileno q calls = all_ready fileno p q call calm e calls rest in
    let later : run_kqueue fileno calls q ≡ run fileno calls q =
      run_kqueue-run filter fileno calls q distinct (step-AllConsistent fileno call p q all e)
        (step-AllIndexed fileno distinct p call q fds ready e)
        (step-AllFiltered filter fileno call p q only suited e) suits still in
    ground (arith, step-step filter fileno p all fds only call ready suited)
