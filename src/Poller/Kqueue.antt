-- ===== src/Poller/Kqueue.antt =====
-- lib/exaproxy/network/async/kqueue.py, class `KQueuePoller`. It keeps the tables of `EPoller`: the
-- records are shared, and so are what surrounds the methods of a name. `registered` is what a kqueue
-- object has been asked for, with `readable` for KQ_readable_READ and `writable` for KQ_readable_WRITE.
-- Adding an event twice changes nothing there; taking out a filter that is not there for the socket, or
-- that is there for the other filter only, raises an OSError, and a closed socket raises `socket.error` as an argument of `kevent`.
pub mod Filtered
pub mod Same
pub mod Polling
mod Tests
use Prim.Native.String.{String}
use exaproxy.Common.{
  ℕ, Bool, true, false, Option, none, some, [], ◌∷◌, if◌then◌else◌, number_key, text_key,
}
use exaproxy.Dict.{Dict, lookup, insert, remove, contains}
use exaproxy.Poller.Epoll.{
  Mask, readable, writable, Channel, EPoller, Change, same, fault, done, closed, forget_fd, Outcome,
  on_channel, drop_error, unless_fault, store, empty_channel, clear_popped, Call, add_read,
  remove_read, cork_read, uncork_read, add_write, remove_write, cork_write, uncork_write,
  set_up_read, set_up_write, clear_reads, clear_writes,
}

-- Is the filter that is registered for a socket the one that is asked for?
abbrev pub is_for : Mask → Option Mask → Bool
is_for m none = false
is_for readable (some readable) = true
is_for readable (some writable) = false
is_for writable (some readable) = false
is_for writable (some writable) = true

module _ (fileno : ℕ → Option ℕ) where
  -- For a closed socket, the handler of the error reads `fileno`, which was not assigned: an
  -- UnboundLocalError. A descriptor that is already known is an AssertionError.
  unfoldable pub add : Mask → ℕ → Channel → Change
  add m sock c = if contains sock c.sockets then same else elim (fileno sock) [
    | none ↦ fault
    | some fd ↦
        if contains fd c.fdtosock
        then fault
        else done (record c {
          sockets = insert sock true c.sockets;
          registered = insert sock m c.registered;
          fdtosock = insert fd sock c.fdtosock;
        })
  ]

  unfoldable pub take_out : Mask → ℕ → Channel → Change
  take_out m sock c =
      if contains sock c.sockets
      then (if contains sock c.corked
          then done (record c {
            sockets = remove sock c.sockets;
            fdtosock = forget_fd fileno sock c.fdtosock;
            corked = remove sock c.corked;
          })
          else elim (fileno sock) [
            | none ↦ fault
            | some fd ↦
                if is_for m (lookup sock c.registered)
                then done (record c {
                  sockets = remove sock c.sockets;
                  fdtosock = forget_fd fileno sock c.fdtosock;
                  registered = remove sock c.registered;
                })
                else fault
          ])
      else same

  unfoldable pub cork : Mask → ℕ → Channel → Change
  cork m sock c =
      if contains sock c.sockets
      then (if contains sock c.corked then same else elim (fileno sock) [
        | none ↦ fault
        | some fd ↦
            if is_for m (lookup sock c.registered)
            then done (record c {
              corked = insert sock true c.corked;
              registered = remove sock c.registered;
            })
            else fault
      ])
      else same

  unfoldable pub uncork : Mask → ℕ → Channel → Change
  uncork m sock c =
      if contains sock c.sockets
      then (if contains sock c.corked
          then elim (fileno sock) [
            | none ↦
                closed (record c { corked = remove sock c.corked; sockets = remove sock c.sockets })
            | some fd ↦ done (record c {
              corked = remove sock c.corked;
              registered = insert sock m c.registered;
            })
          ]
          else same)
      else same

  unfoldable pub add_read_socket : String → ℕ → EPoller → Outcome
  add_read_socket name sock = on_channel name sock (add readable sock)

  unfoldable pub remove_read_socket : String → ℕ → EPoller → Outcome
  remove_read_socket name sock p = drop_error sock (on_channel name sock (take_out readable sock) p)

  unfoldable pub cork_read_socket : String → ℕ → EPoller → Outcome
  cork_read_socket name sock = on_channel name sock (cork readable sock)

  unfoldable pub uncork_read_socket : String → ℕ → EPoller → Outcome
  uncork_read_socket name sock = on_channel name sock (uncork readable sock)

  unfoldable pub add_write_socket : String → ℕ → EPoller → Outcome
  add_write_socket name sock = on_channel name sock (add writable sock)

  unfoldable pub remove_write_socket : String → ℕ → EPoller → Outcome
  remove_write_socket name sock p =
      drop_error sock (on_channel name sock (take_out writable sock) p)

  unfoldable pub cork_write_socket : String → ℕ → EPoller → Outcome
  cork_write_socket name sock = on_channel name sock (cork writable sock)

  unfoldable pub uncork_write_socket : String → ℕ → EPoller → Outcome
  uncork_write_socket name sock = on_channel name sock (uncork writable sock)

unfoldable pub setup_read : String → EPoller → EPoller
setup_read name p = if contains name p.channels then p else store name empty_channel p

unfoldable pub setup_write : String → EPoller → EPoller
setup_write name p = if contains name p.channels then p else store name empty_channel p

unfoldable pub clear_read : String → EPoller → EPoller
unfolding setup_read
clear_read name p = clear_popped name p (lookup name p.channels) (setup_read name)

-- clearWrite calls setupRead, which does the same as setupWrite.
unfoldable pub clear_write : String → EPoller → EPoller
unfolding setup_read
clear_write name p = clear_popped name p (lookup name p.channels) (setup_read name)

module _ (fileno : ℕ → Option ℕ) where
  unfoldable pub step : Call → EPoller → Option EPoller
  step (add_read n s) p = unless_fault p (add_read_socket fileno n s p)
  step (remove_read n s) p = unless_fault p (remove_read_socket fileno n s p)
  step (cork_read n s) p = unless_fault p (cork_read_socket fileno n s p)
  step (uncork_read n s) p = unless_fault p (uncork_read_socket fileno n s p)
  step (add_write n s) p = unless_fault p (add_write_socket fileno n s p)
  step (remove_write n s) p = unless_fault p (remove_write_socket fileno n s p)
  step (cork_write n s) p = unless_fault p (cork_write_socket fileno n s p)
  step (uncork_write n s) p = unless_fault p (uncork_write_socket fileno n s p)
  step (set_up_read n) p = some (setup_read n p)
  step (set_up_write n) p = some (setup_write n p)
  step (clear_reads n) p = some (clear_read n p)
  step (clear_writes n) p = some (clear_write n p)
