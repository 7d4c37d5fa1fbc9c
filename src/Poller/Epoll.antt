-- ===== src/Poller/Epoll.antt =====
-- lib/exaproxy/network/async/epoll.py, class `EPoller`. A socket is a number; a name is the string
-- that the source indexes `self.sockets` by. `fileno` is the operating system's answer to
-- `sock.fileno()`: `none` for a closed socket, where Python raises `socket.error`. What one epoll
-- object was asked for is the field `registered`, which is what the kernel polls while none of its sockets
-- is closed: registering a socket twice, and taking out one
-- that is not there, raise an `IOError` that the source does not catch. `none` as a result is an
-- exception that leaves the method. What a method does to the four tables of one name is a `Change`.
pub mod Kept
pub mod Open
pub mod Consistent
pub mod Safety
pub mod Refines
pub mod Runs
pub mod Polling
pub mod Answers
pub mod Descriptors
pub mod Tests
use Prim.Native.String.{String}
use exaproxy.Common.{
  ℕ, Bool, true, false, Option, none, some, [], ◌∷◌, if◌then◌else◌, number_key, text_key,
}
use exaproxy.Dict.{Dict, lookup, insert, remove, contains}

-- the event masks `EPOLLIN | EPOLLHUP` and `EPOLLOUT | EPOLLHUP`
pub data Mask : Type 0 where
  readable writable : Mask

-- `sockets, poller, fdtosock, corked`
pub record Channel : Type 0 where
  pub sockets : Dict ℕ Bool
  pub registered : Dict ℕ Mask
  pub fdtosock : Dict ℕ ℕ
  pub corked : Dict ℕ Bool

pub record EPoller : Type 0 where
  pub channels : Dict String Channel
  pub errors : Dict ℕ String

abbrev pub empty_channel : Channel
empty_channel = record { sockets = []; registered = []; fdtosock = []; corked = [] }

-- `done` returns True, `same` returns False; `closed` caught a `socket.error`, and `fault` is an
-- exception that nothing catches.
pub data Change : Type 0 where
  same fault : Change
  done closed : Channel → Change

module _ (fileno : ℕ → Option ℕ) where
  unfoldable pub add : Mask → ℕ → Channel → Change
  add m sock c = if contains sock c.sockets then same else elim (fileno sock) [
    | none ↦ closed (record c { sockets = remove sock (insert sock true c.sockets) })
    | some fd ↦
        if contains sock c.registered
        then fault
        else done (record c {
          sockets = insert sock true c.sockets;
          registered = insert sock m c.registered;
          fdtosock = insert fd sock c.fdtosock;
        })
  ]

  -- `fdtosock.pop(sock.fileno(), None)`, where the error of a closed socket is passed over
  unfoldable pub forget_fd : ℕ → Dict ℕ ℕ → Dict ℕ ℕ
  forget_fd sock fds = elim (fileno sock) [ none ↦ fds | some fd ↦ remove fd fds ]

  unfoldable pub take_out : ℕ → Channel → Change
  take_out sock c =
      if contains sock c.sockets
      then (if contains sock c.corked
          then done (record c {
            sockets = remove sock c.sockets;
            fdtosock = forget_fd sock c.fdtosock;
            corked = remove sock c.corked;
          })
          else elim (fileno sock) [
            | none ↦ fault
            | some fd ↦
                if contains sock c.registered
                then done (record c {
                  sockets = remove sock c.sockets;
                  fdtosock = forget_fd sock c.fdtosock;
                  registered = remove sock c.registered;
                })
                else fault
          ])
      else same

  unfoldable pub cork : ℕ → Channel → Change
  cork sock c =
      if contains sock c.sockets
      then (if contains sock c.corked then same else elim (fileno sock) [
        | none ↦ fault
        | some fd ↦
            if contains sock c.registered
            then done (record c {
              corked = insert sock true c.corked;
              registered = remove sock c.registered;
            })
            else fault
      ])
      else same

  unfoldable pub uncork : Mask → ℕ → Channel → Change
  uncork m sock c =
      if contains sock c.sockets
      then (if contains sock c.corked
          then elim (fileno sock) [
            | none ↦
                closed (record c { corked = remove sock c.corked; sockets = remove sock c.sockets })
            | some fd ↦
                if contains sock c.registered
                then fault
                else done (record c {
                  corked = remove sock c.corked;
                  registered = insert sock m c.registered;
                })
          ]
          else same)
      else same

-- `if sock not in self.errors: self.errors[sock] = name`
abbrev pub note_error : ℕ → String → Dict ℕ String → Dict ℕ String
note_error sock name errors = if contains sock errors then errors else insert sock name errors

abbrev pub store : String → Channel → EPoller → EPoller
store name c p = record p { channels = insert name c p.channels }

abbrev pub Outcome : Type 0
Outcome = Option (Bool × EPoller)

abbrev settle : String → ℕ → EPoller → Change → Outcome
settle name sock p same = some (false, p)
settle name sock p fault = none
settle name sock p (done c) = some (true, store name c p)
settle name sock p (closed c) =
    some (false, record (store name c p) { errors = note_error sock name p.errors })

-- `self.sockets[name]`, which raises a KeyError on a name that was not set up
abbrev pub on_channel : String → ℕ → (Channel → Change) → EPoller → Outcome
on_channel name sock f p = elim (lookup name p.channels) [
  | none ↦ none
  | some c ↦ settle name sock p (f c)
]

-- `if sock in self.errors: self.errors.pop(sock)`
abbrev pub drop_error : ℕ → Outcome → Outcome
drop_error sock none = none
drop_error sock (some (b, p)) = some (b, record p { errors = remove sock p.errors })

module _ (fileno : ℕ → Option ℕ) where
  unfoldable pub add_read_socket : String → ℕ → EPoller → Outcome
  add_read_socket name sock = on_channel name sock (add fileno readable sock)

  unfoldable pub remove_read_socket : String → ℕ → EPoller → Outcome
  remove_read_socket name sock p = drop_error sock (on_channel name sock (take_out fileno sock) p)

  unfoldable pub cork_read_socket : String → ℕ → EPoller → Outcome
  cork_read_socket name sock = on_channel name sock (cork fileno sock)

  unfoldable pub uncork_read_socket : String → ℕ → EPoller → Outcome
  uncork_read_socket name sock = on_channel name sock (uncork fileno readable sock)

  unfoldable pub add_write_socket : String → ℕ → EPoller → Outcome
  add_write_socket name sock = on_channel name sock (add fileno writable sock)

  unfoldable pub remove_write_socket : String → ℕ → EPoller → Outcome
  remove_write_socket name sock p = drop_error sock (on_channel name sock (take_out fileno sock) p)

  unfoldable pub cork_write_socket : String → ℕ → EPoller → Outcome
  cork_write_socket name sock = on_channel name sock (cork fileno sock)

  unfoldable pub uncork_write_socket : String → ℕ → EPoller → Outcome
  uncork_write_socket name sock = on_channel name sock (uncork fileno writable sock)

unfoldable pub setup_read : String → EPoller → EPoller
setup_read name p = if contains name p.channels then p else store name empty_channel p

unfoldable pub setup_write : String → EPoller → EPoller
setup_write name p = if contains name p.channels then p else store name empty_channel p

-- The channel is popped first; the set-up runs again only if the popped channel had sockets.
abbrev pub clear_popped : String → EPoller → Option Channel → (EPoller → EPoller) → EPoller
clear_popped name p none setup = p
clear_popped name p (some c) setup =
    let popped : EPoller = record p { channels = remove name p.channels } in
    elim c.sockets [ [] ↦ popped | x ∷ r ↦ setup popped ]

unfoldable pub clear_read : String → EPoller → EPoller
unfolding setup_read
clear_read name p = clear_popped name p (lookup name p.channels) (setup_read name)

unfoldable pub clear_write : String → EPoller → EPoller
unfolding setup_write
clear_write name p = clear_popped name p (lookup name p.channels) (setup_write name)

-- One call of the reactor.
pub data Call : Type 0 where
  add_read remove_read cork_read uncork_read : String → ℕ → Call
  add_write remove_write cork_write uncork_write : String → ℕ → Call
  set_up_read set_up_write clear_reads clear_writes : String → Call

abbrev pub unless_fault : EPoller → Outcome → Option EPoller
unless_fault p none = none
unless_fault p (some (b, q)) = some q

module _ (fileno : ℕ → Option ℕ) where
  unfoldable pub step : Call → EPoller → Option EPoller
  step (add_read n s) p = unless_fault p (add_read_socket fileno n s p)
  step (remove_read n s) p = unless_fault p (remove_read_socket fileno n s p)
  step (cork_read n s) p = unless_fault p (cork_read_socket fileno n s p)
  step (uncork_read n s) p = unless_fault p (uncork_read_socket fileno n s p)
  step (add_write n s) p = unless_fault p (add_write_socket fileno n s p)
  step (remove_write n s) p = unless_fault p (remove_write_socket fileno n s p)
  step (cork_write n s) p = unless_fault p (cork_write_socket fileno n s p)
  step (uncork_write n s) p = unless_fault p (uncork_write_socket fileno n s p)
  step (set_up_read n) p = some (setup_read n p)
  step (set_up_write n) p = some (setup_write n p)
  step (clear_reads n) p = some (clear_read n p)
  step (clear_writes n) p = some (clear_write n p)
