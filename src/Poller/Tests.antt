-- ===== src/Poller/Tests.antt =====
-- The theorems that compare the pollers with what they promise, at concrete inputs.
use Prim.Native.String.{String}
use exaproxy.Common.{ℕ, ◌≡◌, refl, some, List, [], ◌∷◌, arith, number_key, text_key, nat_beq_iff}
use exaproxy.Dict.{lookup, contains, insert}
use exaproxy.Poller.Epoll.{Call, add_read, remove_read, cork_read, uncork_read, EPoller}
use exaproxy.Poller.Epoll.Tests.{open_below, poller, poller-AllConsistent}
use exaproxy.Poller.Epoll.Runs.{run, polls, AllReady, run-moved}
use exaproxy.Poller.Epoll.Refines.{seat_of}
use exaproxy.Poller.Seats.{moved, is_polled}
use exaproxy.Poller.Select.{SelectPoller, listed}
use exaproxy.Poller.Select.Agree.{Agrees}
use exaproxy.Poller.Equal.{run_select, selects, AllAllowed, selects-polls}

-- Socket 8 comes in, 7 is held back and let go, and 8 is taken out.
abbrev pub calls : List Call
calls =
    add_read "read_client" 8
    ∷ cork_read "read_client" 7
    ∷ uncork_read "read_client" 7
    ∷ remove_read "read_client" 8
    ∷ []

pub calls-AllReady : AllReady open_below poller calls
unfolding contains lookup insert
calls-AllReady = (
  (refl, λ e. cc),
  refl,
  ((refl, λ e. cc), refl, ((refl, λ e. cc), refl, ((refl, λ e. cc), refl, tt))),
)

run-moved_example :
    (q : EPoller) × (run open_below calls poller ≡ some q)
    × ((m : String) (t : ℕ)
        → polls m t q ≡ is_polled (moved open_below m t calls (seat_of m t poller)))
run-moved_example = run-moved open_below calls poller poller-AllConsistent calls-AllReady

-- The same socket is watched.
abbrev selecting : SelectPoller
selecting = record {
  reads = record { sockets = ("read_client", listed (7 ∷ [])) ∷ []; modified = []; every = [] };
  writes = record { sockets = []; modified = []; every = [] };
}

selecting-Agrees : Agrees (λ m t. seat_of m t poller) selecting
unfolding lookup contains insert
selecting-Agrees = record {
  shown = λ m t. ground (arith, nat_beq_iff 7 t);
  reads_listed = λ m e. ground arith;
  writes_listed = λ m e. ground arith;
  apart = λ m h. refl;
}

calls-AllAllowed : AllAllowed open_below (λ m t. seat_of m t poller) selecting calls
unfolding lookup contains insert
calls-AllAllowed = ((refl, (λ e. cc), λ e. cc), (refl, ((refl, (λ e. cc), λ e. cc), (refl, tt))))

selects-polls_example :
    (q : EPoller) × (w : SelectPoller) × (run open_below calls poller ≡ some q)
    × (run_select calls selecting ≡ some w)
    × ((m : String) (t : ℕ) → selects m t w ≡ polls m t q)
selects-polls_example =
    selects-polls open_below calls poller selecting poller-AllConsistent selecting-Agrees
      calls-AllReady calls-AllAllowed
