-- ===== src/Poller/Epoll/Answers.antt =====
-- What `poll` of the epoll poller answers, and that it looks up no descriptor in vain.
use Prim.Native.String.{String}
use exaproxy.Common.{
  ℕ, ◌≡◌, inl, inr, refl, Bool, true, false, ◌||◌, ◌&&◌, Option, some, List, [], ◌∷◌, ◌++◌, mem,
  number_key, text_key, ◌==◌, arith, nat_beq_iff, Bool-cases, Option-cases, subst, nat_beq,
  mem-count, count-append,
}
use exaproxy.Dict.{Dict, lookup, insert, contains}
use exaproxy.Poller.Answered.{Answer, AllAnswered, insert-AllAnswered}
use exaproxy.Poller.Epoll.Runs.{polls}
use exaproxy.Poller.Epoll.{Channel, EPoller}
use exaproxy.Poller.Epoll.Consistent.{IsConsistent, AllConsistent}
use exaproxy.Poller.Epoll.Descriptors.{IsIndexed, AllIndexed}
use exaproxy.Poller.Epoll.Polling.{
  Master, interrupted, raised, ready, sockets_at, respond, nothing_for, append_to, append_errors,
  poll,
}

-- The descriptors of one event are those of sockets that the kernel polls for the name.
abbrev AllReported : (ℕ → Option ℕ) → Channel → List ℕ → Type 0
AllReported fileno c [] = Unit
AllReported fileno c (fd ∷ fds) =
    ((s : ℕ) × (fileno s ≡ some fd) × (contains s c.registered ≡ true)) × AllReported fileno c fds

abbrev AllEvents : (ℕ → Option ℕ) → EPoller → List (String × List ℕ) → Type 0
AllEvents fileno p [] = Unit
AllEvents fileno p ((name, fds) ∷ rest) =
    ((c : Channel) × (lookup name p.channels ≡ some c) × AllReported fileno c fds)
    × AllEvents fileno p rest

-- What the kernel may say, short of an error: it names known names, with descriptors of sockets that
-- it polls for them.
abbrev pub IsReport : (ℕ → Option ℕ) → EPoller → Master → Type 0
IsReport fileno p interrupted = Unit
IsReport fileno p raised = true ≡ false
IsReport fileno p (ready events) = AllEvents fileno p events

-- Is a socket among the errors of a name?
unfoldable pub noted : String → ℕ → Dict ℕ String → Bool
noted m t [] = false
noted m t ((sock, name) ∷ errors) =
    let rest = noted m t errors in (name == m && nat_beq sock t) || rest

-- The kernel polls a socket under a name, or an error of the socket was noted under it.
abbrev pub IsAccounted : EPoller → String → ℕ → Type 0
IsAccounted p m t = (polls m t p || noted m t p.errors) ≡ true

sockets_at_lem :
    (fileno : ℕ → Option ℕ) (c : Channel) (fds : List ℕ)
    → IsConsistent c
    → IsIndexed fileno c
    → AllReported fileno c fds
    → (socks : List ℕ) × (sockets_at c.fdtosock fds ≡ some socks)
      × ((t : ℕ) → mem t socks ≡ true → contains t c.registered ≡ true)
unfolding sockets_at
sockets_at_lem fileno c [] v k r = ([], refl, λ t h. cc)
sockets_at_lem fileno c (fd ∷ fds) v k ((s, e, polled), rest) =
    let (socks, found, all) = sockets_at_lem fileno c fds v k rest in
    (s ∷ socks, ground (arith, k s fd e, v.polled s), λ t h. ground (arith, all t, nat_beq_iff s t))

respond_lem :
    (fileno : ℕ → Option ℕ) (p : EPoller) (events : List (String × List ℕ)) (answer : Answer)
    → AllConsistent p.channels
    → AllIndexed fileno p.channels
    → AllEvents fileno p events
    → AllAnswered (IsAccounted p) answer
    → (final : Answer) × (respond events p answer ≡ some final) × AllAnswered (IsAccounted p) final
unfolding respond polls
respond_lem fileno p [] answer all fds h ok = (answer, refl, ok)
respond_lem fileno p ((name, l) ∷ events) answer all fds ((c, found, reported), rest) ok =
    let (socks, e, polled) =
      sockets_at_lem fileno c l (all name c found) (fds name c found) reported in
    let (final, went, fine) = respond_lem fileno p events (insert name socks answer) all fds rest (
      insert-AllAnswered (IsAccounted p) name socks answer ok
        (λ t there. ground (arith, polled t))) in
    (final, ground arith, fine)

append_to_lem :
    (P : String → ℕ → Type 0) (name : String) (sock : ℕ) (answer : Answer)
    → AllAnswered P answer
    → P name sock
    → AllAnswered P (append_to name sock answer)
append_to_lem P name sock answer all h = elim (Option-cases (lookup name answer)) [
  | inl missing ↦
      rw (missing, append_to)
        (insert-AllAnswered P name (sock ∷ []) answer all
          (λ t there. at_end [] t (λ e. absurd cc) there))
  | inr (l, found) ↦
      rw (found, append_to)
        (insert-AllAnswered P name (l ++ sock ∷ []) answer all
          (λ t there. at_end l t (all name t l found) there))
]
  where
    at_end :
        (l : List ℕ) (t : ℕ)
        → (mem t l ≡ true → P name t)
        → mem t (l ++ sock ∷ []) ≡ true
        → P name t
    at_end l t k there = elim (Bool-cases (nat_beq sock t)) [
      | inl hit ↦ subst (P name) ((nat_beq_iff sock t).0 hit) h
      | inr miss ↦ k (
          ground (arith, mem-count t l, mem-count t (l ++ sock ∷ []), count-append t l (sock ∷ [])))
    ]

append_errors_lem :
    (P : String → ℕ → Type 0) (errors : Dict ℕ String) (answer : Answer)
    → AllAnswered P answer
    → ((m : String) (t : ℕ) → noted m t errors ≡ true → P m t)
    → AllAnswered P (append_errors errors answer)
unfolding append_errors noted
append_errors_lem P [] answer all h = all
append_errors_lem P ((sock, name) ∷ errors) answer all h =
    append_errors_lem P errors (append_to name sock answer)
      (append_to_lem P name sock answer all
        (h name sock (ground (arith, text_key.same_iff name name, nat_beq_iff sock sock))))
      (λ m t there. h m t (ground arith))

nothing_for_lem :
    (P : String → ℕ → Type 0) (names : List String) → AllAnswered P (nothing_for names)
unfolding nothing_for lookup
nothing_for_lem P [] m t l found there = absurd cc
nothing_for_lem P (name ∷ names) m t l found there = elim (Bool-cases (name == m)) [
  | inl hit ↦ absurd (ground arith)
  | inr miss ↦ nothing_for_lem P names m t l (rw (miss, lookup) at found) there
]

-- From tables that agree, where the kernel reports only descriptors of sockets that it polls, a poll
-- returns, interrupted or not: every descriptor is found, and each socket that is answered under a
-- name is polled by the kernel under that name, or an error of it was noted there.
pub poll-AllAccounted :
    (fileno : ℕ → Option ℕ) (master : Master) (names : List String) (p : EPoller)
    → AllConsistent p.channels
    → AllIndexed fileno p.channels
    → IsReport fileno p master
    → (answer : Answer) × (poll master names p ≡ some answer) × AllAnswered (IsAccounted p) answer
unfolding poll nothing_for
poll-AllAccounted fileno interrupted names p all fds h = (
  append_errors p.errors [],
  refl,
  append_errors_lem (IsAccounted p) p.errors [] (nothing_for_lem (IsAccounted p) [])
      (λ m t e. ground arith),
)
poll-AllAccounted fileno raised names p all fds h = absurd cc
poll-AllAccounted fileno (ready events) names p all fds h =
    let (a, e, ok) =
      respond_lem fileno p events (nothing_for names) all fds h
        (nothing_for_lem (IsAccounted p) names) in
    (
      append_errors p.errors a,
      ground arith,
      append_errors_lem (IsAccounted p) p.errors a ok (λ m t e. ground arith),
    )
