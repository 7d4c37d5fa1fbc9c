-- ===== src/Client/Http/Tests.antt =====
-- Requests and bodies at concrete bytes.
use exaproxy.Common.{◌≡◌, refl, arith, true, false, some, [], ◌∷◌, ◌++◌}
use exaproxy.Client.Http.{
  Text, is_hex, is_hex_digit, int16, hex_digit, check_chunk_size, check_request, look, find,
  starts_with, count_quotes, quotes, escaped, eor,
}
use exaproxy.Client.Http.Chunks.{Chunk, AllChunks, printed, check_chunk_size-printed}
use exaproxy.Client.Http.Search.{Joins, check_request-Joins}
use exaproxy.Client.Http.Relay.{new_request, transfer, Reader, gives_nothing, turn, needs_recv}
use exaproxy.Client.Http.Relay.Stream.{Keeps, turn-Keeps}
use exaproxy.Client.Http.Relay.Bodies.{
  GivesSome, turn-GivesSome, expecting, in_chunks, chunked_misread,
}

-- "GET", a blank line, and "X"
abbrev asked : Text
asked = 71 ∷ 69 ∷ 84 ∷ 13 ∷ 10 ∷ 13 ∷ 10 ∷ 88 ∷ []

check_request-Joins_example : Joins eor asked (71 ∷ 69 ∷ 84 ∷ 13 ∷ 10 ∷ 13 ∷ 10 ∷ []) (88 ∷ [])
unfolding check_request look find starts_with count_quotes quotes escaped
check_request-Joins_example =
    check_request-Joins asked 0 0 (71 ∷ 69 ∷ 84 ∷ 13 ∷ 10 ∷ 13 ∷ 10 ∷ []) (88 ∷ []) 0 refl

-- One chunk, "hello".
abbrev hello : Chunk
hello = record { digits = 53 ∷ []; body = 104 ∷ 101 ∷ 108 ∷ 108 ∷ 111 ∷ []; crlf = true }

hello-AllChunks : AllChunks (hello ∷ [])
unfolding is_hex is_hex_digit int16 hex_digit
hello-AllChunks = ((refl, refl, omega arith, omega arith), refl)

check_chunk_size-printed_example :
    check_chunk_size (printed (hello ∷ []) (48 ∷ 13 ∷ 10 ∷ 71 ∷ [])) ≡ (false, some 13)
unfolding is_hex is_hex_digit int16 hex_digit
check_chunk_size-printed_example =
    check_chunk_size-printed (hello ∷ []) (48 ∷ []) true (71 ∷ []) hello-AllChunks refl refl

abbrev relaying : Reader
relaying = record { mode = transfer; r_buffer = 97 ∷ 98 ∷ 99 ∷ []; nb_to_send = 2; seek = 0 }

turn-Keeps_example : Keeps transfer (97 ∷ 98 ∷ 99 ∷ []) (turn 0 (100 ∷ []) relaying)
unfolding needs_recv
turn-Keeps_example = turn-Keeps 0 (100 ∷ []) relaying

turn-GivesSome_example : GivesSome 2 (turn 0 [] relaying)
unfolding needs_recv
turn-GivesSome_example = turn-GivesSome 0 [] relaying refl (omega arith) refl

chunked_misread_example :
    ((turn 0 (in_chunks (hello ∷ []) (48 ∷ []) true) expecting).0 ≡ gives_nothing)
    × (turn 0 (71 ∷ []) (turn 0 (in_chunks (hello ∷ []) (48 ∷ []) true) expecting).1 ≡ (
      gives_nothing,
      record {
        mode = new_request;
        r_buffer = in_chunks (hello ∷ []) (48 ∷ []) true ++ 71 ∷ [];
        nb_to_send = 15;
        seek = 0;
      },
    ))
unfolding is_hex is_hex_digit int16 hex_digit
chunked_misread_example =
    chunked_misread 0 (hello ∷ []) (48 ∷ []) true 71 [] hello-AllChunks refl refl
