-- ===== src/Content/Worker.antt =====
-- lib/exaproxy/reactor/content/worker.py, class `Content`. The socket is a number; what `send` and
-- `recv` answer is an argument. `w_buffer` is the one field that changes, so the methods take it and
-- give it back, and `Content` holds the others.
pub mod Stream
mod Tests
use Prim.Native.String.{String}
use exaproxy.Common.{
  ℕ, Bool, true, false, Option, none, some, List, [], ◌∷◌, ◌++◌, if◌then◌else◌, drop, text_key,
  ◌==◌,
}

abbrev pub Bytes : Type 0
Bytes = List ℕ

pub record Content : Type 0 where
  pub client : ℕ
  pub sock : ℕ
  pub host : String
  pub port : ℕ
  pub method : String
  pub ipv4 : Bool

-- `sock.send`: the bytes taken, or a `socket.error` of `errno_block`, of `errno_unavailable`, or of
-- another number
pub data Sent : Type 0 where
  took : ℕ → Sent
  would_block unavailable failed : Sent

-- `sock.recv`: bytes, none of them at the end of the stream, or a `socket.error`
pub data Received : Type 0 where
  got : Bytes → Received
  not_yet broken : Received

-- `bool` of a text
abbrev pub is_filled : Bytes → Bool
is_filled [] = false
is_filled (x ∷ xs) = true

pub record Write : Type 0 where
  pub res : Option Bool
  pub sent4 : ℕ
  pub sent6 : ℕ
  pub w_buffer : Bytes

abbrev write_result : Content → Option Bool → ℕ → Bytes → Write
write_result c res sent left = record {
  res = res;
  sent4 = if c.ipv4 then sent else 0;
  sent6 = if c.ipv4 then 0 else sent;
  w_buffer = left;
}

unfoldable pub write_data : Content → Bytes → Sent → Bytes → Write
write_data c w_buffer (took sent) extra =
    let left = drop sent (w_buffer ++ extra) in write_result c (some (is_filled left)) sent left
write_data c w_buffer would_block extra =
    write_result c (some (is_filled (w_buffer ++ extra))) 0 (w_buffer ++ extra)
write_data c w_buffer unavailable extra = write_result c none 0 (w_buffer ++ extra)
write_data c w_buffer failed extra = write_result c none 0 (w_buffer ++ extra)

-- `recv(buflen) or None`
unfoldable pub read_data : Received → Option Bytes
read_data (got []) = none
read_data (got (x ∷ xs)) = some (x ∷ xs)
read_data not_yet = some []
read_data broken = none

abbrev is_some : Option Bool → Bool
is_some none = false
is_some (some b) = true

-- `self.client, res is not None, response`, with what the write left
unfoldable pub start_conversation : Content → Bytes → Sent → ℕ × Bool × String × Bytes
unfolding write_data
start_conversation c w_buffer answer =
    let w = write_data c w_buffer answer [] in
    (
      c.client,
      is_some w.res,
      (if c.method == "connect" then "HTTP/1.1 200 Connection Established\r\n\r\n" else ""),
      w.w_buffer,
    )

unfoldable pub buffer_data : Bytes → Bytes → Bool × Bytes
buffer_data w_buffer extra = (is_filled (w_buffer ++ extra), w_buffer ++ extra)
