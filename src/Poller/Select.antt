-- ===== src/Poller/Select.antt =====
-- lib/exaproxy/network/async/selectpoll.py, the function `poll_select` and the class `SelectPoller`.
-- What `select.select` does is a parameter: it answers the sockets to read and to write, or it
-- raises with an error number, as a `socket.error`, a `select.error` or another exception. The
-- numbers of `errno_block` are `blocking`. `poll` calls it for each name without waiting (`now`),
-- then once for all with a wait, then for each name again (`later`). `none` as a result is an
-- exception that leaves the method.
pub mod Counts
pub mod Agree
pub mod Polling
pub mod Answers
mod Tests
use Prim.Native.String.{String}
use exaproxy.Common.{
  ℕ, Bool, true, false, Option, none, some, List, [], ◌∷◌, ◌++◌, if◌then◌else◌, mem, remove_first,
  number_key, text_key,
}
use exaproxy.Dict.{Dict, lookup, insert, contains}
use exaproxy.Poller.Answered.{Answer}
use exaproxy.Poller.Epoll.{
  Call, add_read, remove_read, cork_read, uncork_read, add_write, remove_write, cork_write,
  uncork_write, set_up_read, set_up_write, clear_reads, clear_writes,
}

-- The sockets of a name: a list, or the dictionary `{}` that `clearRead` puts there.
pub data Sockets : Type 0 where
  listed : List ℕ → Sockets
  emptied : Sockets

-- One direction of the poller: `read_sockets`, `read_modified` and `read_all`, or those to write.
pub record Side : Type 0 where
  pub sockets : Dict String Sockets
  pub modified : Dict String Bool
  pub every : List ℕ

pub record SelectPoller : Type 0 where
  pub reads : Side
  pub writes : Side

unfoldable pub create : SelectPoller
create =
    let none_yet : Side = record { sockets = []; modified = []; every = [] } in
    record { reads = none_yet; writes = none_yet }

-- `socket in sockets`
abbrev pub inside : ℕ → Sockets → Bool
inside sock (listed l) = mem sock l
inside sock emptied = false

-- What a method does to the sockets of a name: nothing, an AttributeError, or other sockets.
pub data Change : Type 0 where
  same fault : Change
  done : Sockets → Change

-- `sockets.append`, which a dictionary does not have
unfoldable pub add : ℕ → Sockets → Change
add sock emptied = fault
add sock (listed l) = if mem sock l then same else done (listed (l ++ (sock ∷ [])))

unfoldable pub take_out : ℕ → Sockets → Change
unfolding remove_first
take_out sock emptied = same
take_out sock (listed l) = if mem sock l then done (listed (remove_first sock l)) else same

abbrev settle : String → Side → Change → Option Side
settle name p same = some p
settle name p fault = none
settle name p (done l) =
    some (record p { sockets = insert name l p.sockets; modified = insert name true p.modified })

abbrev on_name : String → (Sockets → Change) → Side → Option Side
on_name name f p = elim (lookup name p.sockets) [ none ↦ none | some l ↦ settle name p (f l) ]

abbrev on_reads : SelectPoller → Option Side → Option SelectPoller
on_reads p none = none
on_reads p (some side) = some (record p { reads = side })

abbrev on_writes : SelectPoller → Option Side → Option SelectPoller
on_writes p none = none
on_writes p (some side) = some (record p { writes = side })

unfoldable pub add_read_socket : String → ℕ → SelectPoller → Option SelectPoller
add_read_socket name sock p = on_reads p (on_name name (add sock) p.reads)

unfoldable pub remove_read_socket : String → ℕ → SelectPoller → Option SelectPoller
remove_read_socket name sock p = on_reads p (on_name name (take_out sock) p.reads)

unfoldable pub add_write_socket : String → ℕ → SelectPoller → Option SelectPoller
add_write_socket name sock p = on_writes p (on_name name (add sock) p.writes)

unfoldable pub remove_write_socket : String → ℕ → SelectPoller → Option SelectPoller
remove_write_socket name sock p = on_writes p (on_name name (take_out sock) p.writes)

-- `corkReadSocket = removeReadSocket`, and the three beside it
abbrev pub cork_read_socket : String → ℕ → SelectPoller → Option SelectPoller
cork_read_socket = remove_read_socket

abbrev pub uncork_read_socket : String → ℕ → SelectPoller → Option SelectPoller
uncork_read_socket = add_read_socket

abbrev pub cork_write_socket : String → ℕ → SelectPoller → Option SelectPoller
cork_write_socket = remove_write_socket

abbrev pub uncork_write_socket : String → ℕ → SelectPoller → Option SelectPoller
uncork_write_socket = add_write_socket

abbrev set_up : String → Side → Side
set_up name p =
    if contains name p.sockets then p else record p { sockets = insert name (listed []) p.sockets }

unfoldable pub setup_read : String → SelectPoller → SelectPoller
setup_read name p = record p { reads = set_up name p.reads }

unfoldable pub setup_write : String → SelectPoller → SelectPoller
setup_write name p = record p { writes = set_up name p.writes }

-- `bool(sockets)`
abbrev had_sockets : Sockets → Bool
had_sockets (listed []) = false
had_sockets (listed (x ∷ l)) = true
had_sockets emptied = false

abbrev clear : String → Side → Option Side
clear name p = elim (lookup name p.sockets) [
  | none ↦ none
  | some l ↦ some (record p {
    sockets = insert name emptied p.sockets;
    modified = if had_sockets l then insert name true p.modified else p.modified;
  })
]

unfoldable pub clear_read : String → SelectPoller → Option SelectPoller
clear_read name p = on_reads p (clear name p.reads)

unfoldable pub clear_write : String → SelectPoller → Option SelectPoller
clear_write name p = on_writes p (clear name p.writes)

-- What `select.select` does with the sockets to read and to write.
pub data Selection : Type 0 where
  selected : List ℕ → List ℕ → Selection
  socket_error select_error : ℕ → Selection
  other_error : Selection

-- An error of the numbers that say to try again is an answer without sockets; any other is raised.
unfoldable pub poll_select : List ℕ → Selection → Option (List ℕ × List ℕ)
poll_select blocking (selected r w) = some (r, w)
poll_select blocking (socket_error n) = if mem n blocking then some ([], []) else none
poll_select blocking (select_error n) = if mem n blocking then some ([], []) else none
poll_select blocking other_error = none

-- `sum(values, [])`, where a dictionary among the values is a TypeError
unfoldable pub sum_of : Dict String Sockets → Option (List ℕ)
sum_of [] = some []
sum_of ((name, l) ∷ rest) =
    let others = sum_of rest in
    elim l [
      | emptied ↦ none
      | listed socks ↦ elim others [ none ↦ none | some all ↦ some (socks ++ all) ]
    ]

abbrev refresh : Side → Option Side
refresh p = elim p.modified [
  | [] ↦ some p
  | x ∷ rest ↦ elim (sum_of p.sockets) [
    | none ↦ none
    | some all ↦ some (record p { every = all; modified = [] })
  ]
]

-- `if socks: all_socks[name] = socks`
abbrev file : String → List ℕ → Answer → Answer
file name [] answer = answer
file name (x ∷ socks) answer = insert name (x ∷ socks) answer

-- What a turn of a loop files under a name: in the last loop, what is ready to be written is filed
-- first even where it is nothing.
abbrev file_reads : String → List ℕ × List ℕ → Answer → Answer
file_reads name (r, w) answer = file name r answer

abbrev file_writes : String → List ℕ × List ℕ → Answer → Answer
file_writes name (r, w) answer = file name w answer

abbrev file_all : String → List ℕ × List ℕ → Answer → Answer
file_all name (r, w) answer = file name r (insert name w answer)

-- A loop over the names. `read + write` in `poll_select` is a TypeError for a dictionary.
module _ (poller : List ℕ → Option (List ℕ × List ℕ))
    (filed : String → List ℕ × List ℕ → Answer → Answer) where
  unfoldable pub poll_names : Dict String Sockets → Answer → Option Answer
  poll_names [] answer = some answer
  poll_names ((name, emptied) ∷ rest) answer = none
  poll_names ((name, listed l) ∷ rest) answer = elim (poller l) [
    | none ↦ none
    | some socks ↦ poll_names rest (filed name socks answer)
  ]

module _ (blocking : List ℕ) (select : List ℕ → List ℕ → Selection) where
  -- `self.poller(socks, [], 0)` and `self.poller([], socks, 0)`
  abbrev reading : List ℕ → Option (List ℕ × List ℕ)
  reading l = poll_select blocking (select l [])

  abbrev writing : List ℕ → Option (List ℕ × List ℕ)
  writing l = poll_select blocking (select [] l)

  unfoldable pub first_loops : SelectPoller → Option Answer
  first_loops p = elim (poll_names reading file_reads p.reads.sockets []) [
    | none ↦ none
    | some answer ↦ poll_names writing file_writes p.writes.sockets answer
  ]

  unfoldable pub last_loops : SelectPoller → Option Answer
  last_loops p = elim (poll_names reading file_reads p.reads.sockets []) [
    | none ↦ none
    | some answer ↦ poll_names writing file_all p.writes.sockets answer
  ]

module _ (blocking : List ℕ) (now wait later : List ℕ → List ℕ → Selection) where
  abbrev wait_for : SelectPoller → Option (Answer × SelectPoller)
  wait_for p = elim (poll_select blocking (wait p.reads.every p.writes.every)) [
    | none ↦ none
    | some socks ↦ elim (last_loops blocking later p) [
      | none ↦ none
      | some answer ↦ some (answer, p)
    ]
  ]

  unfoldable pub poll_again : SelectPoller → Option (Answer × SelectPoller)
  poll_again p = elim (refresh p.reads) [
    | none ↦ none
    | some reads ↦ elim (refresh p.writes) [
      | none ↦ none
      | some writes ↦ wait_for (record { reads = reads; writes = writes })
    ]
  ]

  unfoldable pub poll : SelectPoller → Option (Answer × SelectPoller)
  poll p =
      let again = poll_again p in
      elim (first_loops blocking now p) [
        | none ↦ none
        | some [] ↦ again
        | some (x ∷ answer) ↦ some (x ∷ answer, p)
      ]

-- One call of the reactor on this poller.
unfoldable pub act : Call → SelectPoller → Option SelectPoller
act (add_read n s) p = add_read_socket n s p
act (remove_read n s) p = remove_read_socket n s p
act (cork_read n s) p = cork_read_socket n s p
act (uncork_read n s) p = uncork_read_socket n s p
act (add_write n s) p = add_write_socket n s p
act (remove_write n s) p = remove_write_socket n s p
act (cork_write n s) p = cork_write_socket n s p
act (uncork_write n s) p = uncork_write_socket n s p
act (set_up_read n) p = some (setup_read n p)
act (set_up_write n) p = some (setup_write n p)
act (clear_reads n) p = clear_read n p
act (clear_writes n) p = clear_write n p
