-- ===== src/Client/Respond.antt =====
-- `startData` of lib/exaproxy/reactor/client/tls.py and passthrough.py, and what it shares with the one of
-- http.py: what the content manager answers is handed to a new generator. The first argument is whether
-- the client came over IPv4. `none` as a whole result is an exception that leaves the method.
use exaproxy.Common.{ℕ, Bool, true, false, Option, none, some}
use exaproxy.Client.Writer.{Bytes, Writer, looping, Sent, Yield, Turn, write_turn}

-- The answer to a client: a stream, a text after which the connection is closed, a header with the name
-- of a file, or another command. What the socket takes of the text comes with it.
pub data Answer : Type 0 where
  stream close : Bytes → Sent → Answer
  file : Bytes → ℕ → Answer
  other : Answer

-- What the first turn yielded, and the generator; without a command it waits at its first yield.
pub record Started : Type 0 where
  pub res : Option Yield
  pub writer : Option Writer

abbrev pub running : Bytes → Writer
running w_buffer = record { w_buffer = w_buffer; finished = false; phase = looping }

abbrev pub started : Turn → Option Started
started none = none
started (some (y, w)) = some (record { res = some y; writer = some w })

-- The text is written, then the generator is told to close, in a turn that sends nothing; the first
-- turn is answered or the second.
abbrev pub then_close : Bool → Bool → Turn → Option Started
then_close ipv4 first none = none
then_close ipv4 first (some (y, w)) = elim (write_turn ipv4 (Sent.took 0) none w) [
  | none ↦ none
  | some turn ↦
      some (record { res = some (elim first [ true ↦ y | false ↦ turn.0 ]); writer = some turn.1 })
]

-- No files, and the answer to `close` is that of the second turn
unfoldable pub start_data : Bool → Bytes → Answer → Option Started
start_data ipv4 w_buffer (stream text sent) =
    started (write_turn ipv4 sent (some text) (running w_buffer))
start_data ipv4 w_buffer (close text sent) =
    then_close ipv4 false (write_turn ipv4 sent (some text) (running w_buffer))
start_data ipv4 w_buffer (file header name) = some (record { res = none; writer = none })
start_data ipv4 w_buffer other = some (record { res = none; writer = none })
