-- ===== src/Poller/Epoll/Polling.antt =====
-- lib/exaproxy/network/async/epoll.py, `EPoller.poll`. What the kernel says is an argument: the
-- master's call was interrupted, or it raised another error, or it names the epoll objects with
-- something ready, here with the descriptors that each one then reports. `names` are those of
-- `self.pollers`.
use Prim.Native.String.{String}
use exaproxy.Common.{ℕ, Option, none, some, List, [], ◌∷◌, ◌++◌, number_key, text_key}
use exaproxy.Dict.{Dict, lookup, insert}
use exaproxy.Poller.Answered.{Answer}
use exaproxy.Poller.Epoll.{EPoller}

pub data Master : Type 0 where
  interrupted raised : Master
  ready : List (String × List ℕ) → Master

-- `[fdtosock[sock_fd] for ...]`, where a descriptor that is not there is a KeyError
unfoldable pub sockets_at : Dict ℕ ℕ → List ℕ → Option (List ℕ)
sockets_at fds [] = some []
sockets_at fds (fd ∷ rest) =
    let others = sockets_at fds rest in
    elim (lookup fd fds) [
      | none ↦ none
      | some sock ↦ elim others [ none ↦ none | some socks ↦ some (sock ∷ socks) ]
    ]

unfoldable pub respond : List (String × List ℕ) → EPoller → Answer → Option Answer
respond [] p answer = some answer
respond ((name, fds) ∷ events) p answer = elim (lookup name p.channels) [
  | none ↦ none
  | some c ↦ elim (sockets_at c.fdtosock fds) [
    | none ↦ none
    | some socks ↦ respond events p (insert name socks answer)
  ]
]

-- `dict((name, []) for ...)`
unfoldable pub nothing_for : List String → Answer
nothing_for [] = []
nothing_for (name ∷ names) = (name, []) ∷ nothing_for names

-- `response.setdefault(name, []).append(fd)`
abbrev pub append_to : String → ℕ → Answer → Answer
append_to name sock answer = elim (lookup name answer) [
  | none ↦ insert name (sock ∷ []) answer
  | some socks ↦ insert name (socks ++ (sock ∷ [])) answer
]

unfoldable pub append_errors : Dict ℕ String → Answer → Answer
append_errors [] answer = answer
append_errors ((sock, name) ∷ errors) answer = append_errors errors (append_to name sock answer)

unfoldable pub poll : Master → List String → EPoller → Option Answer
poll interrupted names p = some (append_errors p.errors [])
poll raised names p = none
poll (ready events) names p = elim (respond events p (nothing_for names)) [
  | none ↦ none
  | some answer ↦ some (append_errors p.errors answer)
]
