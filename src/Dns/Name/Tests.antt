-- ===== src/Dns/Name/Tests.antt =====
-- Names at concrete bytes.
use exaproxy.Common.{◌≡◌, arith, refl, some, none, [], ◌∷◌, ◌++◌, length}
use exaproxy.Dns.Name.{Text, join, string_to_dns, dns_string, dns_to_string_info, still_running}
use exaproxy.Dns.Name.RoundTrip.{AllLabels, dns_string-string_to_dns}
use exaproxy.Dns.Name.Pointers.{dns_to_string_info_loops}

-- "ab.c"
abbrev labels_ab_c : AllLabels ((97 ∷ 98 ∷ []) ∷ (99 ∷ []) ∷ [])
labels_ab_c = ((omega arith, omega arith, refl), ((omega arith, omega arith, refl), refl))

dns_string-string_to_dns_example :
    (bytes : Text) × (string_to_dns (97 ∷ 98 ∷ 46 ∷ 99 ∷ []) ≡ some bytes)
    × (dns_string (bytes ++ (0 ∷ []))
        ≡ some (record {
          bytes_read = some (length bytes);
          value = 97 ∷ 98 ∷ 46 ∷ 99 ∷ [];
          ptr = none;
        }))
unfolding join
dns_string-string_to_dns_example =
    dns_string-string_to_dns (97 ∷ 98 ∷ []) ((99 ∷ []) ∷ []) (0 ∷ []) labels_ab_c

-- A packet whose first two bytes point to themselves.
dns_to_string_info_loops_example :
    dns_to_string_info 1000 (192 ∷ 0 ∷ []) (192 ∷ 0 ∷ []) ≡ some (some 2, still_running)
dns_to_string_info_loops_example =
    dns_to_string_info_loops 1000 (192 ∷ 0 ∷ []) [] 0 192 0 refl (omega arith) refl
