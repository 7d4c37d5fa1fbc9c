-- ===== src/Client/Http/Respond.antt =====
-- lib/exaproxy/reactor/client/http.py, `startData`, and the opening turns of its generator. `content_of` is what a
-- file holds, `none` where it cannot be read.
use exaproxy.Common.{ℕ, Bool, true, false, Option, none, some, ◌++◌}
use exaproxy.Client.Writer.{Bytes, wrote, write_turn}
use exaproxy.Client.Respond.{
  Answer, stream, close, file, other, Started, running, started, then_close,
}

-- A file that cannot be read leaves `file_data` unassigned, so that the header raises an
-- UnboundLocalError.
unfoldable pub start_data : Bool → (ℕ → Option Bytes) → Bytes → Answer → Option Started
start_data ipv4 content_of w_buffer (stream text sent) =
    started (write_turn ipv4 sent (some text) (running w_buffer))
start_data ipv4 content_of w_buffer (close text sent) =
    then_close ipv4 true (write_turn ipv4 sent (some text) (running w_buffer))
start_data ipv4 content_of w_buffer (file header name) = elim (content_of name) [
  | none ↦ none
  | some file_data ↦
      then_close ipv4 true
        (some (wrote true false 0 0, running (w_buffer ++ (header ++ file_data))))
]
start_data ipv4 content_of w_buffer other = some (record { res = none; writer = none })
