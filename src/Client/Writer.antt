-- ===== src/Client/Writer.antt =====
-- The coroutine `_write` of the clients, as it stands in lib/exaproxy/reactor/client/http.py: one `send`
-- to the generator at a time. What `sock.send` answers is an argument, also of a turn that does not
-- call it. The data None closes the connection.
pub mod Stream
pub mod Closing
mod Tests
use exaproxy.Common.{
  ℕ, Bool, true, false, not, ◌&&◌, ◌||◌, Option, none, some, List, [], ◌∷◌, ◌++◌, if◌then◌else◌,
  drop,
}

abbrev pub Bytes : Type 0
Bytes = List ℕ

-- Where the generator stands: in its loop, at the `yield None` of the loop or of the handler of an
-- error, or at the one behind the loop.
pub data Phase : Type 0 where
  looping stopping stopped : Phase

pub record Writer : Type 0 where
  pub w_buffer : Bytes
  pub finished : Bool
  pub phase : Phase

-- `sock.send`: the bytes taken, or a `socket.error` of `errno_block`, or of another number
pub data Sent : Type 0 where
  took : ℕ → Sent
  would_block failed : Sent

-- What the generator yields: None, or `buffered, had_buffer` and the bytes sent over IPv4 and IPv6.
pub data Yield : Type 0 where
  nothing : Yield
  wrote : Bool → Bool → ℕ → ℕ → Yield

abbrev pub is_filled : Bytes → Bool
is_filled [] = false
is_filled (x ∷ xs) = true

abbrev with_data : Bytes → Option Bytes → Bytes
with_data w_buffer none = w_buffer
with_data w_buffer (some extra) = w_buffer ++ extra

abbrev is_close : Option Bytes → Bool
is_close none = true
is_close (some extra) = false

-- `data == ''`
abbrev is_flush : Option Bytes → Bool
is_flush none = false
is_flush (some []) = true
is_flush (some (x ∷ xs)) = false

-- `none` is the StopIteration of a generator that has returned.
abbrev pub Turn : Type 0
Turn = Option (Yield × Writer)

module _ (ipv4 : Bool) where
  abbrev wrote_bytes : Bool → Bool → ℕ → Bytes → Turn
  wrote_bytes finished had_buffer sent left = some (
    wrote (is_filled left || finished) had_buffer (if ipv4 then sent else 0)
        (if ipv4 then 0 else sent),
    record { w_buffer = left; finished = finished; phase = looping },
  )

  -- the call of `sock.send`, and the handler of its error
  abbrev send_buffer : Bool → Bool → Bytes → Sent → Turn
  send_buffer finished had_buffer w_buffer (took sent) =
      wrote_bytes finished had_buffer sent (drop sent w_buffer)
  send_buffer finished had_buffer w_buffer would_block = wrote_bytes finished had_buffer 0 w_buffer
  send_buffer finished had_buffer w_buffer failed =
      some (nothing, record { w_buffer = w_buffer; finished = finished; phase = stopping })

  abbrev loop_turn : Sent → Option Bytes → Writer → Turn
  loop_turn answer extra w =
      let w_buffer = with_data w.w_buffer extra in
      let finished = w.finished || is_close extra in
      let had_buffer = is_filled w.w_buffer in
      if finished && not (is_filled w_buffer)
      then some (nothing, record w { finished = finished; phase = stopping })
      else if not had_buffer || is_flush extra
      then send_buffer finished had_buffer w_buffer answer
      else wrote_bytes finished had_buffer 0 w_buffer

  unfoldable pub write_turn : Sent → Option Bytes → Writer → Turn
  write_turn answer extra w = elim w.phase [
    | looping ↦ loop_turn answer extra w
    | stopping ↦ some (nothing, record w { phase = stopped })
    | stopped ↦ none
  ]
