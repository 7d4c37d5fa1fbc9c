-- ===== src/Http/Request/Tests.antt =====
-- Runs of http/request.py.
use exaproxy.Common.{◌≡◌, refl, none, some, [], ◌∷◌}
use exaproxy.Client.Http.{starts_with}
use exaproxy.Util.MessageBox.{int10}
use exaproxy.Http.Request.RoundTrip.{url, parse-url}
use exaproxy.Http.Request.{
  split_on, split_scheme, checkport, host_port, bracketed, ipv6_host, parse_host, http_name, parse,
}

-- a://b:81/c
with_a_port :
    parse (97 ∷ 58 ∷ 47 ∷ 47 ∷ 98 ∷ 58 ∷ 56 ∷ 49 ∷ 47 ∷ 99 ∷ [])
    ≡ some (record { protocol = 97 ∷ []; host = 98 ∷ []; port = 81; path = 47 ∷ 99 ∷ [] })
unfolding split_on split_scheme checkport host_port bracketed ipv6_host parse_host parse starts_with
    int10
with_a_port = refl

-- An IPv6 address with a port and no path, [:]:81, is refused.
bracket_port : parse (91 ∷ 58 ∷ 93 ∷ 58 ∷ 56 ∷ 49 ∷ []) ≡ none
unfolding split_on split_scheme checkport host_port bracketed ipv6_host parse_host parse starts_with
    int10
bracket_port = refl

-- An IPv6 address with two slashes in its path, [:]/a/b, is refused.
bracket_slashes : parse (91 ∷ 58 ∷ 93 ∷ 47 ∷ 97 ∷ 47 ∷ 98 ∷ []) ≡ none
unfolding split_on split_scheme checkport host_port bracketed ipv6_host parse_host parse starts_with
    int10
bracket_slashes = refl

-- http://b:81/c
parse-url_example :
    parse (url (98 ∷ []) (56 ∷ 49 ∷ []) (99 ∷ []))
    ≡ some (record {
      protocol = http_name;
      host = 98 ∷ [];
      port = int10 0 (56 ∷ 49 ∷ []);
      path = 47 ∷ 99 ∷ [];
    })
parse-url_example = parse-url (98 ∷ []) (56 ∷ 49 ∷ []) (99 ∷ []) refl refl refl refl
