-- ===== src/Poller/Kqueue/Polling.antt =====
-- lib/exaproxy/network/async/kqueue.py, `KQueuePoller.poll`. What the kernel says is an argument: the
-- master's call was interrupted, or it raised another error, or it names the kqueue objects with
-- something ready, here with the events that each one then gives: a descriptor, and whether
-- KQ_EV_ERROR is set. `names` are those of `self.pollers`.
use Prim.Native.String.{String}
use exaproxy.Common.{
  ℕ, Bool, Option, none, some, List, [], ◌∷◌, number_key, text_key, if◌then◌else◌,
}
use exaproxy.Dict.{lookup, remove, contains}
use exaproxy.Poller.Answered.{Answer}
use exaproxy.Poller.Epoll.{Channel, EPoller, store, note_error}
use exaproxy.Poller.Epoll.Polling.{nothing_for, append_to, append_errors}

abbrev pub Event : Type 0
Event = ℕ × Bool

pub data Master : Type 0 where
  interrupted raised : Master
  ready : List (String × List Event) → Master

-- A socket with an error is answered once, and then it is put out and its error is noted. The kernel
-- raises for an event that it does not have or a socket that was closed, `sockets.pop` for a socket
-- that is not in.
module _ (fileno : ℕ → Option ℕ) where
  abbrev drop_socket : String → ℕ → ℕ → Channel → EPoller → Option EPoller
  drop_socket name fd sock c p = elim (fileno sock) [
    | none ↦ none
    | some own ↦
        if contains sock c.registered
        then (if contains sock c.sockets
            then some
                (record (store name
                  (record c {
                    sockets = remove sock c.sockets;
                    registered = remove sock c.registered;
                    fdtosock = remove fd c.fdtosock;
                  })
                  p) { errors = note_error sock name p.errors })
            else none)
        else none
  ]

  -- One event of a name. A descriptor that is not known is passed over.
  abbrev take_event : String → Event → EPoller → Answer → Option (Answer × EPoller)
  take_event name (fd, failed) p answer = elim (lookup name p.channels) [
    | none ↦ none
    | some c ↦ elim (lookup fd c.fdtosock) [
      | none ↦ some (answer, p)
      | some sock ↦
          if contains name answer
          then (if failed
              then elim (drop_socket name fd sock c p) [
                | none ↦ none
                | some q ↦ some (append_to name sock answer, q)
              ]
              else some (append_to name sock answer, p))
          else some (answer, p)
    ]
  ]

  unfoldable pub take_events : String → List Event → EPoller → Answer → Option (Answer × EPoller)
  take_events name [] p answer = some (answer, p)
  take_events name (e ∷ events) p answer = elim (take_event name e p answer) [
    | none ↦ none
    | some (a, q) ↦ take_events name events q a
  ]

  unfoldable pub respond : List (String × List Event) → EPoller → Answer → Option (Answer × EPoller)
  respond [] p answer = some (answer, p)
  respond ((name, events) ∷ rest) p answer = elim (take_events name events p answer) [
    | none ↦ none
    | some (a, q) ↦ respond rest q a
  ]

  unfoldable pub poll : Master → List String → EPoller → Option (Answer × EPoller)
  poll interrupted names p = some (append_errors p.errors [], p)
  poll raised names p = none
  poll (ready events) names p = elim (respond events p (nothing_for names)) [
    | none ↦ none
    | some (answer, q) ↦ some (append_errors q.errors answer, q)
  ]
