-- ===== src/Tls/Hello.antt =====
-- lib/exaproxy/tls/decode.py, `get_tls_hello_size` and `parse_hello`. A text is its list of bytes.
-- An index out of range is an IndexError, which `parse_hello` answers with None; `struct.unpack` of
-- fewer than two bytes is a struct.error, which it does not catch.
pub mod Parts
pub mod RoundTrip
pub mod Bounds
mod Tests
use exaproxy.Common.{
  ℕ, zero, suc, ◌+◌, ◌-◌, ◌*◌, ◌%◌, Bool, true, false, not, ◌&&◌, Option, none, some, List, [], ◌∷◌,
  if◌then◌else◌, length, take, drop, ltb, leb, number_key, ◌==◌,
}

abbrev pub Bytes : Type 0
Bytes = List ℕ

abbrev pub tls_header_len : ℕ
tls_header_len = 5

-- What `parse_hello` gives: a name, None, or a struct.error that leaves it.
pub data Parsed : Type 0 where
  hostname : Bytes → Parsed
  nothing struct_error : Parsed

-- `ord(data[i])`
unfoldable pub byte : ℕ → Bytes → Option ℕ
byte i [] = none
byte zero (x ∷ xs) = some x
byte (suc i) (x ∷ xs) = byte i xs

-- `short`
unfoldable pub short : Bytes → Option ℕ
short (a ∷ b ∷ []) = some (a * 256 + b)
short _ = none

abbrev pub with_byte : Option ℕ → (ℕ → Parsed) → Parsed
with_byte none next = nothing
with_byte (some x) next = next x

abbrev pub with_short : Option ℕ → (ℕ → Parsed) → Parsed
with_short none next = struct_error
with_short (some x) next = next x

unfoldable pub get_tls_hello_size : Bytes → Option ℕ
unfolding short
get_tls_hello_size hello = elim (short (take 2 (drop 3 hello))) [
  | none ↦ none
  | some size ↦ some (size + tls_header_len)
]

-- The last loop, over the names of the extension, on fuel.
unfoldable pub names : ℕ → Bytes → Parsed
names zero hello = nothing
names (suc fuel) [] = nothing
names (suc fuel) (kind ∷ hello) =
    let rest : ℕ → Parsed = λ size. names fuel (drop (size + 3) (kind ∷ hello)) in
    with_short (short (take 2 hello))
      (λ size. if kind == 0 then hostname (take size (drop 2 hello)) else rest size)

-- The loop over the extensions, on fuel: what is left of the data once the one of kind 0 is found, or
-- at the end of the data; `none` is a struct.error.
unfoldable pub extension : ℕ → Bytes → Option Bytes
extension zero hello = some []
extension (suc fuel) [] = some []
extension (suc fuel) (x ∷ hello) =
    let rest : ℕ → Option Bytes = λ size. extension fuel (drop (size + 4) (x ∷ hello)) in
    elim (short (take 2 (drop 2 (x ∷ hello)))) [
      | none ↦ none
      | some size ↦ elim (short (take 2 (x ∷ hello))) [
        | none ↦ none
        | some kind ↦
            if kind == 0 then some (take (size + 4 - 6) (drop 6 (x ∷ hello))) else rest size
      ]
    ]

-- Each call reads `data` from where the one before it stopped.
abbrev pub in_names : Option Bytes → Parsed
in_names none = struct_error
in_names (some found) = names (length found) found

abbrev pub in_extensions : Bytes → Parsed
in_extensions hello = in_names (extension (length hello) hello)

abbrev pub after_compression : Bytes → Parsed
after_compression [] = nothing
after_compression (x ∷ hello) =
    with_short (short (take 2 (x ∷ hello))) (λ size. in_extensions (take size (drop 2 (x ∷ hello))))

abbrev pub from_compression : Bytes → Parsed
from_compression hello =
    with_byte (byte 0 hello) (λ size. after_compression (drop (size + 1) hello))

abbrev pub from_ciphers : Bytes → Parsed
from_ciphers hello =
    with_short (short (take 2 hello)) (λ size. from_compression (drop (size + 2) hello))

abbrev pub from_session : Bytes → Parsed
from_session hello = with_byte (byte 0 hello) (λ size. from_ciphers (drop (size + 1) hello))

abbrev pub from_handshake : Bytes → Parsed
from_handshake hello =
    with_byte (byte 0 hello) (λ kind. if kind == 1 then from_session (drop 38 hello) else nothing)

unfoldable pub parse_hello : Bytes → Parsed
parse_hello hello =
    if ltb (length hello) (tls_header_len + 1)
    then nothing
    else with_byte (byte 0 hello) (λ content_type.
      if not (content_type == 0x16)
      then nothing
      else with_byte (byte 1 hello) (λ major. with_byte (byte 2 hello) (λ minor.
        if leb 128 (content_type % 256) && minor == 1
        then nothing
        else if ltb major 3
        then nothing
        else with_short (short (take 2 (drop 3 hello)))
            (λ size. from_handshake (take (size + tls_header_len) (drop tls_header_len hello))))))
