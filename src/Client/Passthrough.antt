-- ===== src/Client/Passthrough.antt =====
-- lib/exaproxy/reactor/client/passthrough.py, class `PassthroughClient`: the coroutine `_read`, one
-- `send` at a time, and the writer that it shares with the other clients. What `recv` answers is an
-- argument. `processProxyHeader` reads `self.eol`, which the class does not have: an AttributeError, for
-- which the result is `none`, as for a generator that has left its loop.
use exaproxy.Common.{Bool, true, false, Option, none, some, [], ◌∷◌, ◌++◌, if◌then◌else◌}
use exaproxy.Client.Writer.{Bytes, Writer, Sent, Turn, write_turn}
use exaproxy.Client.Respond.{Answer, Started, start_data}

pub data Mode : Type 0 where
  proxy passthrough : Mode

pub data Received : Type 0 where
  got : Bytes → Received
  not_yet broken : Received

pub record PassthroughReader : Type 0 where
  pub r_buffer : Bytes
  pub mode : Mode
  pub over : Bool

unfoldable pub create : Bool → PassthroughReader
create proxied = record {
  r_buffer = [];
  mode = if proxied then proxy else passthrough;
  over = false;
}

-- None twice, or no request and some data
pub data Given : Type 0 where
  ends : Given
  gives : Bytes → Given

abbrev pub ReadTurn : Type 0
ReadTurn = Option (Given × PassthroughReader)

abbrev ended : PassthroughReader → ReadTurn
ended r = some (ends, record r { over = true })

-- `process`: the buffer is given as it is.
unfoldable pub process : PassthroughReader → ReadTurn
process r = some (gives r.r_buffer, record r { r_buffer = [] })

abbrev with_mode : Mode → PassthroughReader → ReadTurn
with_mode proxy r = none
with_mode passthrough r = process r

abbrev receive : Received → PassthroughReader → ReadTurn
receive (got []) r = ended r
receive not_yet r = some (gives [], r)
receive broken r = ended r
receive (got (x ∷ xs)) r = with_mode r.mode (record r { r_buffer = r.r_buffer ++ x ∷ xs })

abbrev read_mode : Received → PassthroughReader → Mode → ReadTurn
read_mode answer r proxy = receive answer r
read_mode answer r passthrough = elim r.r_buffer [ [] ↦ receive answer r | x ∷ xs ↦ process r ]

unfoldable pub read_turn : Received → PassthroughReader → ReadTurn
read_turn answer r = if r.over then none else read_mode answer r r.mode

-- `_write` and `startData` are those of the TLS client.
unfoldable pub write_data : Bool → Sent → Option Bytes → Writer → Turn
unfolding write_turn
write_data ipv4 answer extra w = write_turn ipv4 answer extra w

unfoldable pub start : Bool → Bytes → Answer → Option Started
unfolding start_data
start ipv4 w_buffer answer = start_data ipv4 w_buffer answer
