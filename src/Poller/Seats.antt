-- ===== src/Poller/Seats.antt =====
-- What a poller promises, without its tables: under each name a socket is out, polled, or held back.
-- A call moves the socket that it names, and no other.
use Prim.Native.String.{String}
use exaproxy.Common.{
  ℕ, Bool, true, false, Option, none, some, List, [], ◌∷◌, ◌==◌, number_key, text_key, ◌&&◌,
}
use exaproxy.Poller.Epoll.{
  Call, add_read, remove_read, cork_read, uncork_read, add_write, remove_write, cork_write,
  uncork_write, set_up_read, set_up_write, clear_reads, clear_writes,
}

pub data Seat : Type 0 where
  out polled held : Seat

-- A closed socket does not get in, and is put out where it would be polled again.
abbrev pub join : Option ℕ → Seat → Seat
join none s = s
join (some fd) out = polled
join (some fd) polled = polled
join (some fd) held = held

abbrev pub leave : Seat → Seat
leave s = out

abbrev pub hold : Seat → Seat
hold out = out
hold polled = held
hold held = held

abbrev pub resume : Option ℕ → Seat → Seat
resume fd out = out
resume fd polled = polled
resume (some fd) held = polled
resume none held = out

abbrev pub at : Bool → (Seat → Seat) → Seat → Seat
at true move s = move s
at false move s = s

abbrev pub is_polled : Seat → Bool
is_polled out = false
is_polled polled = true
is_polled held = false

module _ (fileno : ℕ → Option ℕ) (m : String) (t : ℕ) where
  abbrev pub move : Call → Seat → Seat
  move (add_read n s) = at (n == m && s == t) (join (fileno s))
  move (remove_read n s) = at (n == m && s == t) leave
  move (cork_read n s) = at (n == m && s == t) hold
  move (uncork_read n s) = at (n == m && s == t) (resume (fileno s))
  move (add_write n s) = at (n == m && s == t) (join (fileno s))
  move (remove_write n s) = at (n == m && s == t) leave
  move (cork_write n s) = at (n == m && s == t) hold
  move (uncork_write n s) = at (n == m && s == t) (resume (fileno s))
  move (set_up_read n) = λ s. s
  move (set_up_write n) = λ s. s
  move (clear_reads n) = at (n == m) leave
  move (clear_writes n) = at (n == m) leave

  -- the seat after a sequence of calls
  abbrev pub moved : List Call → Seat → Seat
  moved [] s = s
  moved (c ∷ cs) s = moved cs (move c s)
