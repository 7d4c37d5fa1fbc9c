-- ===== src/Util/Proxy/Tests.antt =====
-- The proxy protocol's theorem at a concrete line.
use exaproxy.Common.{◌≡◌, refl, Bool, true, false, some, [], ◌∷◌, ◌++◌, inl}
use exaproxy.Util.Proxy.{Bytes, parse, word_tcp4}
use exaproxy.Util.Proxy.RoundTrip.{line_of, parse-line_of}

-- Every address is one of IPv4, and none is one of IPv6.
abbrev always : Bytes → Bool
always source = true

abbrev never : Bytes → Bool
never source = false

-- "PROXY TCP4 1.2 3.4 5 6", and the first byte of a hello behind it
parse-line_of_example :
    parse always never (
      line_of word_tcp4 (49 ∷ 46 ∷ 50 ∷ []) (51 ∷ 46 ∷ 52 ∷ []) (53 ∷ []) (54 ∷ [])
      ++ 13 ∷ 10 ∷ 22 ∷ [])
    ≡ (some (49 ∷ 46 ∷ 50 ∷ []), some (22 ∷ []))
parse-line_of_example =
    parse-line_of always never word_tcp4 (49 ∷ 46 ∷ 50 ∷ []) (51 ∷ 46 ∷ 52 ∷ []) (53 ∷ []) (54 ∷ [])
      (22 ∷ []) (inl (refl, refl)) (refl, refl) (refl, refl) (refl, refl) (refl, refl)
