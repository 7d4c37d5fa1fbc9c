-- ===== src/Poller/Epoll/Tests.antt =====
-- The poller's theorems at concrete inputs.
use exaproxy.Common.{
  ℕ, ◌≡◌, refl, true, Option, none, some, [], ◌∷◌, arith, number_key, text_key, ltb, nat_beq_iff,
  if◌then◌else◌,
}
use exaproxy.Dict.{lookup, insert, contains}
use exaproxy.Poller.Epoll.{readable, EPoller, Channel, step, cork_read}
use exaproxy.Poller.Epoll.Consistent.{IsConsistent, AllConsistent, insert-AllConsistent}
use exaproxy.Poller.Answered.{Answer, AllAnswered}
use exaproxy.Poller.Epoll.Kept.{insert-AllOf}
use exaproxy.Poller.Epoll.Descriptors.{IsDistinct, IsIndexed, AllIndexed}
use exaproxy.Poller.Epoll.Polling.{ready, poll}
use exaproxy.Poller.Epoll.Answers.{IsAccounted, poll-AllAccounted}
use exaproxy.Poller.Epoll.Open.{IsOpen, AllOpen, step-AllOpen}

-- Sockets below 100 are open; the descriptor is the socket's number.
abbrev pub open_below : ℕ → Option ℕ
open_below s = if ltb s 100 then some s else none

-- Socket 7 is watched under "read_client"; nothing is corked.
abbrev pub watching : Channel
watching = record {
  sockets = (7, true) ∷ [];
  registered = (7, readable) ∷ [];
  fdtosock = (7, 7) ∷ [];
  corked = [];
}

abbrev pub poller : EPoller
poller = record { channels = insert "read_client" watching []; errors = [] }

watching-IsConsistent : IsConsistent watching
unfolding contains lookup
watching-IsConsistent = record { polled = λ s. ground arith; corks = λ s h. cc }

nothing-AllConsistent : AllConsistent []
unfolding lookup
nothing-AllConsistent n c h = cc

pub poller-AllConsistent : AllConsistent poller.channels
poller-AllConsistent =
    insert-AllConsistent "read_client" watching [] nothing-AllConsistent watching-IsConsistent

watching-IsOpen : IsOpen open_below watching
unfolding contains lookup
watching-IsOpen s h e = ground arith

poller-AllOpen : AllOpen open_below poller.channels
poller-AllOpen =
    insert-AllOf (λ n. IsOpen open_below) "read_client" watching [] (unfold lookup in λ n c h. cc)
      watching-IsOpen

step-AllOpen_example :
    (q : EPoller) × (step open_below (cork_read "read_client" 7) poller ≡ some q)
    × AllConsistent q.channels
    × AllOpen open_below q.channels
step-AllOpen_example =
    step-AllOpen open_below (cork_read "read_client" 7) poller poller-AllConsistent poller-AllOpen
      (unfold contains lookup insert in refl, λ e. cc)

pub open_below-IsDistinct : IsDistinct open_below
open_below-IsDistinct s t fd e f = ground arith

watching-IsIndexed : IsIndexed open_below watching
unfolding contains lookup
watching-IsIndexed s fd e = ground (arith, nat_beq_iff 7 s, nat_beq_iff 7 fd)

pub poller-AllIndexed : AllIndexed open_below poller.channels
poller-AllIndexed =
    insert-AllOf (λ n. IsIndexed open_below) "read_client" watching []
      (unfold lookup in λ n c h. cc) watching-IsIndexed

-- Socket 7 has something to read, and an error of socket 200 was noted.
abbrev with_error : EPoller
with_error = record poller { errors = (200, "read_client") ∷ [] }

poll-AllAccounted_example :
    (answer : Answer) × (poll (ready (("read_client", 7 ∷ []) ∷ [])) ("read_client" ∷ []) with_error
      ≡ some answer)
    × AllAnswered (IsAccounted with_error) answer
unfolding lookup insert contains
poll-AllAccounted_example =
    poll-AllAccounted open_below (ready (("read_client", 7 ∷ []) ∷ [])) ("read_client" ∷ [])
      with_error poller-AllConsistent poller-AllIndexed
      ((watching, refl, ((7, refl, refl), tt)), tt)
