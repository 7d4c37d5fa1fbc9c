-- ===== src/Tls/Hello/Tests.antt =====
-- Client hellos at concrete bytes.
use exaproxy.Common.{◌≡◌, refl, [], ◌∷◌, ◌++◌}
use exaproxy.Tls.Hello.{Bytes, hostname, struct_error, parse_hello, byte, short}
use exaproxy.Tls.Hello.RoundTrip.{ClientHello, written, parse_hello-written}

abbrev zeroes : Bytes
zeroes = 0 ∷ 0 ∷ 0 ∷ 0 ∷ 0 ∷ 0 ∷ 0 ∷ 0 ∷ 0 ∷ []

-- The name "a.b", after an extension of kind 21.
abbrev greeting : ClientHello
greeting = record {
  minor = 1;
  opening = 0 ∷ (zeroes ++ zeroes ++ zeroes ++ zeroes);
  session = [];
  ciphers = 192 ∷ 43 ∷ [];
  compression = 0 ∷ [];
  extensions_before = record { before = 20; body = 0 ∷ 0 ∷ [] } ∷ [];
  names_before = [];
  name = 97 ∷ 46 ∷ 98 ∷ [];
  names_after = [];
  extensions_after = 255 ∷ 1 ∷ 0 ∷ 1 ∷ 0 ∷ [];
}

parse_hello-written_example : parse_hello (written greeting) ≡ hostname (97 ∷ 46 ∷ 98 ∷ [])
parse_hello-written_example = parse_hello-written greeting refl

-- cut off after the session id, a hello ends in a struct.error
truncated :
    parse_hello (0x16 ∷ 3 ∷ 1 ∷ 0 ∷ 40 ∷ 1 ∷ 0 ∷ (zeroes ++ zeroes ++ zeroes ++ zeroes ++ 0 ∷ []))
    ≡ struct_error
unfolding parse_hello byte short
truncated = refl
