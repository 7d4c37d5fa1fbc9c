-- ===== src/Poller/Select/Tests.antt =====
-- The select poller's theorems at concrete inputs.
use exaproxy.Common.{ℕ, ◌≡◌, refl, Option, some, List, [], ◌∷◌, arith, number_key, text_key}
use exaproxy.Dict.{lookup, insert, contains}
use exaproxy.Poller.Answered.{Answer, AllAnswered}
use exaproxy.Poller.Select.{
  SelectPoller, listed, Selection, selected, poll, poll_select, poll_names, first_loops, create,
  setup_read, clear_read,
}
use exaproxy.Poller.Select.Polling.{IsHonest, IsWatched}
use exaproxy.Poller.Select.Answers.{poll-AllAnswered}

abbrev watching : SelectPoller
watching = record {
  reads = record { sockets = ("read_client", listed (7 ∷ 8 ∷ [])) ∷ []; modified = []; every = [] };
  writes = record { sockets = ("write_client", listed (9 ∷ [])) ∷ []; modified = []; every = [] };
}

-- Everything is ready.
abbrev all_ready : List ℕ → List ℕ → Selection
all_ready r w = selected r w

abbrev answer : Answer
answer = ("read_client", 7 ∷ 8 ∷ []) ∷ ("write_client", 9 ∷ []) ∷ []

all_ready-IsHonest : IsHonest all_ready
all_ready-IsHonest r w a b e t = (λ h. ground arith, λ h. ground arith)

polled : poll [] all_ready all_ready all_ready watching ≡ some (answer, watching)
unfolding poll first_loops poll_names poll_select insert
polled = refl

poll-AllAnswered_example : AllAnswered (IsWatched watching) answer
poll-AllAnswered_example =
    poll-AllAnswered [] all_ready all_ready all_ready all_ready-IsHonest all_ready-IsHonest watching
      answer watching polled

-- A new poller with a name that is cleared.
abbrev cleared : Option SelectPoller
cleared = clear_read "read_client" (setup_read "read_client" create)

cleared_poller : (q : SelectPoller) × (cleared ≡ some q)
unfolding clear_read setup_read create lookup insert contains
cleared_poller = (_, refl)
