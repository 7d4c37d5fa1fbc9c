-- ===== src/Tls/Client.antt =====
-- lib/exaproxy/reactor/client/tls.py, `checkRequest` of class `TLSClient`, and the part of `_read`
-- that calls it, up to the hello. What `recv` gives is a list of texts; an empty one ends it.
pub mod Reading
pub mod Relay
pub mod Proxied
mod Tests
use exaproxy.Common.{
  ℕ, ◌+◌, Bool, true, false, ◌&&◌, ◌||◌, Option, none, some, List, [], ◌∷◌, ◌++◌, if◌then◌else◌,
  length, take, drop, ltb, leb, number_key, ◌==◌,
}
use exaproxy.Tls.Hello.{Bytes, tls_header_len, get_tls_hello_size}

-- What `checkRequest` answers: None, no hello yet, with the size that is looked for (`none` is None),
-- or a hello and what follows it.
pub data Checked : Type 0 where
  rejected : Checked
  waiting : Bytes → Option ℕ → Checked
  complete : Bytes → Bytes → ℕ → Checked

abbrev is_zero : Option ℕ → Bool
is_zero none = false
is_zero (some n) = n == 0

-- `size <= 0 or size > max_length`; None is below every number
abbrev is_refused : ℕ → Option ℕ → Bool
is_refused max_length none = true
is_refused max_length (some n) = n == 0 || ltb max_length n

abbrev with_size : Bytes → Option ℕ → Checked
with_size r_buffer none = rejected
with_size r_buffer (some n) =
    if leb n (length r_buffer)
    then complete (take n r_buffer) (drop n r_buffer) n
    else waiting r_buffer (some n)

unfoldable pub check_request : Bytes → ℕ → Option ℕ → Checked
check_request r_buffer max_length size =
    if is_zero size && ltb (length r_buffer) tls_header_len
    then waiting r_buffer none
    else (let read = if is_zero size then get_tls_hello_size r_buffer else size in
        if is_refused max_length read then rejected else with_size r_buffer read)

-- What a client that sends these reads comes to: it is closed, it has not sent a hello yet, or it has,
-- with the bytes left over and the reads to come.
pub data Outcome : Type 0 where
  closed : Outcome
  pending : Bytes → Option ℕ → Outcome
  greeted : Bytes → Bytes → List Bytes → Outcome

unfoldable pub read_hello : ℕ → List Bytes → Bytes → Option ℕ → Outcome
read_hello max_length [] r_buffer size = pending r_buffer size
read_hello max_length ([] ∷ reads) r_buffer size = closed
read_hello max_length ((x ∷ xs) ∷ reads) r_buffer size =
    elim (check_request (r_buffer ++ x ∷ xs) max_length size) [
      | rejected ↦ closed
      | waiting buffer wanted ↦ read_hello max_length reads buffer wanted
      | complete hello rest n ↦ greeted hello rest reads
    ]
