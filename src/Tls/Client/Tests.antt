-- ===== src/Tls/Client/Tests.antt =====
-- Hellos in pieces, at concrete bytes.
use exaproxy.Common.{◌≡◌, refl, arith, Bool, true, false, some, List, [], ◌∷◌, ◌++◌, inl}
use exaproxy.Tls.Hello.{Bytes, get_tls_hello_size, short}
use exaproxy.Tls.Client.{greeted, check_request, read_hello}
use exaproxy.Util.Proxy.{word_tcp4}
use exaproxy.Util.Proxy.RoundTrip.{line_of}
use exaproxy.Tls.Client.Relay.{Mode, got, create, read_turn}
use exaproxy.Tls.Client.Proxied.{with_peer, read_turn-proxied}
use exaproxy.Tls.Client.Reading.{Splits, all_of, read_hello-Splits}

-- A record of three bytes, in two reads, with a byte that follows it.
abbrev pieces : List Bytes
pieces = (22 ∷ 3 ∷ 1 ∷ 0 ∷ 3 ∷ 1 ∷ []) ∷ (8 ∷ 9 ∷ 10 ∷ []) ∷ []

read_hello-Splits_example : Splits 8 (all_of pieces) (read_hello 100 pieces [] (some 0))
unfolding get_tls_hello_size short
read_hello-Splits_example =
    read_hello-Splits 100 8 22 (3 ∷ 1 ∷ 0 ∷ 3 ∷ 1 ∷ []) ((8 ∷ 9 ∷ 10 ∷ []) ∷ []) refl (omega arith)
      (omega arith) refl

two_reads :
    read_hello 100 pieces [] (some 0) ≡ greeted (22 ∷ 3 ∷ 1 ∷ 0 ∷ 3 ∷ 1 ∷ 8 ∷ 9 ∷ []) (10 ∷ []) []
unfolding read_hello check_request get_tls_hello_size short
two_reads = refl

-- Every address is one of IPv4, and none is one of IPv6.
abbrev always : Bytes → Bool
always source = true

abbrev never : Bytes → Bool
never source = false

-- "PROXY TCP4 1.2 3.4 5 6" and the first bytes of a hello
read_turn-proxied_example :
    read_turn always never 100 Mode.passthrough
      (got (
          line_of word_tcp4 (49 ∷ 46 ∷ 50 ∷ []) (51 ∷ 46 ∷ 52 ∷ []) (53 ∷ []) (54 ∷ [])
          ++ 13 ∷ 10 ∷ 22 ∷ 3 ∷ [])
        ∷ [])
      (create true)
    ≡ with_peer
        (49 ∷ 46 ∷ 50 ∷ [])
        (read_turn always never 100 Mode.passthrough (got (22 ∷ 3 ∷ []) ∷ []) (create false))
read_turn-proxied_example =
    read_turn-proxied always never 100 Mode.passthrough [] word_tcp4 (49 ∷ 46 ∷ 50 ∷ [])
      (51 ∷ 46 ∷ 52 ∷ []) (53 ∷ []) (54 ∷ []) 22 (3 ∷ []) (inl (refl, refl)) (refl, refl)
      (refl, refl) (refl, refl) (refl, refl)
