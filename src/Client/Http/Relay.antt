-- ===== src/Client/Http/Relay.antt =====
-- lib/exaproxy/reactor/client/http.py, the loop of `_read` and the methods that it hands the buffer to,
-- one turn at a time, without the proxy header: what `recv` gives is an argument, and so is what the
-- generator is resumed with after a request. A `socket.error` leaves the state as it is.
pub mod Stream
pub mod Bodies
use exaproxy.Common.{
  ℕ, zero, suc, ◌+◌, ◌-◌, ◌*◌, ◌%◌, min, Bool, true, false, not, ◌&&◌, ◌||◌, Option, none, some,
  List, [], ◌∷◌, ◌++◌, if◌then◌else◌, length, take, drop, ltb, leb, number_key, ◌==◌,
}
use exaproxy.Client.Http.{
  Text, is_empty, starts_with, Checked, too_long, unfinished, request, check_request,
  check_chunk_size,
}

pub data Mode : Type 0 where
  http new_request passthrough transfer chunked end_chunk extra_headers : Mode

pub record Reader : Type 0 where
  pub mode : Mode
  pub r_buffer : Text
  pub nb_to_send : ℕ
  pub seek : ℕ

unfoldable pub create : Reader
create = record { mode = http; r_buffer = []; nb_to_send = 0; seek = 0 }

-- `data, r_buffer, mode, nb_to_send, seek`; no data is None, which ends the client
abbrev pub Processed : Type 0
Processed = Option Text × Reader

-- the bytes that may be sent, and what is left
unfoldable pub transferred : Reader → Text × Reader
transferred r =
    let len = min (length r.r_buffer) r.nb_to_send in
    (
      take len r.r_buffer,
      record r { r_buffer = drop len r.r_buffer; nb_to_send = r.nb_to_send - len; seek = 0 },
    )

unfoldable pub transfer_data : Reader → Processed
unfolding transferred
transfer_data r =
    let (bytes, n) = transferred r in
    (some bytes, if n.nb_to_send == 0 then record n { mode = new_request } else n)

-- the end of `_chunked`, with what `checkChunkSize` found
abbrev pub measured : Text → Reader → Bool × Option ℕ → Processed
measured bytes n (more, size) =
    let total : ℕ = elim size [ none ↦ n.nb_to_send | some s ↦ n.nb_to_send + s ] in
    (
      elim size [ none ↦ none | some s ↦ some bytes ],
      record n {
        nb_to_send = total;
        mode = if more then n.mode else if ltb 0 total then end_chunk else new_request;
      },
    )

unfoldable pub chunked_data : Reader → Processed
unfolding transferred
chunked_data r =
    let (bytes, n) = transferred r in
    measured bytes n (check_chunk_size (drop n.nb_to_send n.r_buffer))

-- `seek` is not assigned where nothing follows but a carriage return at most: an UnboundLocalError, `none`.
unfoldable pub end_of_chunks : Reader → Option Processed
end_of_chunks r =
    let header_buffer = drop r.nb_to_send r.r_buffer in
    let is_return = starts_with (13 ∷ []) header_buffer && length header_buffer == 1 in
    if starts_with (13 ∷ 10 ∷ []) header_buffer
    then some (some [], record r { nb_to_send = r.nb_to_send + 2; seek = 0; mode = new_request })
    else if starts_with (10 ∷ []) header_buffer
    then some (some [], record r { nb_to_send = r.nb_to_send + 1; seek = 0; mode = new_request })
    else if not (is_empty header_buffer) && not is_return
    then some (some [], record r { mode = extra_headers; seek = r.nb_to_send })
    else none

abbrev pub with_headers : Reader → Checked → Processed
with_headers r too_long = (none, r)
with_headers r (unfinished s) = (some [], record r { seek = s })
with_headers r (request text rest s) =
    (some text, record r { r_buffer = rest; mode = new_request; seek = 0 })

unfoldable pub header_data : ℕ → Reader → Processed
header_data max_buffer r = with_headers r (check_request r.r_buffer max_buffer r.seek)

-- `none` is an exception that leaves the generator.
abbrev pub process : ℕ → Mode → Reader → Option Processed
process max_buffer passthrough r =
    some (some r.r_buffer, record r { r_buffer = []; nb_to_send = 0; seek = 0 })
process max_buffer transfer r = some (transfer_data r)
process max_buffer chunked r = some (chunked_data r)
process max_buffer end_chunk r = end_of_chunks r
process max_buffer extra_headers r = some (header_data max_buffer r)
process max_buffer http r = some (none, r)
process max_buffer new_request r = some (none, r)

-- What a turn yields: a request, data, nothing, or the end of the client; or it raises.
pub data Yielded : Type 0 where
  gives_request gives_data : Text → Yielded
  gives_nothing ended raised : Yielded

unfoldable pub needs_recv : Reader → Bool
needs_recv r = elim r.mode [
  | new_request ↦ false
  | transfer ↦ is_empty r.r_buffer
  | http ↦ true
  | passthrough ↦ true
  | chunked ↦ true
  | end_chunk ↦ true
  | extra_headers ↦ true
]

unfoldable pub lstrip : Text → Text
lstrip [] = []
lstrip (x ∷ xs) = let rest = lstrip xs in if x == 13 || x == 10 then rest else x ∷ xs

abbrev pub answer_request : Reader → Checked → Yielded × Reader
answer_request r too_long = (ended, r)
answer_request r (unfinished s) = (gives_nothing, record r { seek = s })
answer_request r (request text rest s) =
    (gives_request text, record r { r_buffer = rest; seek = 0 })

abbrev pub search_request : ℕ → Reader → Yielded × Reader
search_request max_buffer r =
    let stripped = record r { mode = http; r_buffer = lstrip r.r_buffer } in
    answer_request stripped (check_request stripped.r_buffer max_buffer r.seek)

abbrev pub answer_data : Processed → Yielded × Reader
answer_data (none, r) = (ended, r)
answer_data (some [], r) = (gives_nothing, r)
answer_data (some (x ∷ xs), r) = (gives_data (x ∷ xs), r)

abbrev pub answer_process : Reader → Option Processed → Yielded × Reader
answer_process r none = (raised, r)
answer_process r (some p) = answer_data p

-- A turn of the loop, once the socket was read where it is.
abbrev pub serve_as : ℕ → Mode → Reader → Yielded × Reader
serve_as max_buffer http r = search_request max_buffer r
serve_as max_buffer new_request r = search_request max_buffer r
serve_as max_buffer passthrough r = answer_process r (process max_buffer passthrough r)
serve_as max_buffer transfer r = answer_process r (process max_buffer transfer r)
serve_as max_buffer chunked r = answer_process r (process max_buffer chunked r)
serve_as max_buffer end_chunk r = answer_process r (process max_buffer end_chunk r)
serve_as max_buffer extra_headers r = answer_process r (process max_buffer extra_headers r)

abbrev pub serve : ℕ → Reader → Yielded × Reader
serve max_buffer r = serve_as max_buffer r.mode r

-- `new_data` is what `recv` gives, where the turn reads; none at the end of the stream
unfoldable pub turn : ℕ → Text → Reader → Yielded × Reader
unfolding needs_recv
turn max_buffer new_data r =
    if needs_recv r
    then (if is_empty new_data
        then (ended, r)
        else serve max_buffer (record r { r_buffer = r.r_buffer ++ new_data }))
    else serve max_buffer r

-- After a request the generator is told what follows it.
unfoldable pub resume : Mode → ℕ → Reader → Reader
resume mode nb_to_send r = record r { mode = mode; nb_to_send = nb_to_send }
