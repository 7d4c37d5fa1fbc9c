-- ===== src/Http/Request.antt =====
-- lib/exaproxy/http/request.py: `Request.parse`, which takes the URI of a request apart. A text is a list of
-- bytes: 47 is a slash, 58 a colon, 91 and 93 the brackets of an IPv6 address. `none` is a ValueError.
pub mod RoundTrip
mod Tests
use exaproxy.Common.{
  ℕ, Bool, true, false, Option, none, some, List, [], ◌∷◌, if◌then◌else◌, mem, drop, ◌==◌,
  number_key,
}
use exaproxy.Client.Http.{Text, is_empty, starts_with}
use exaproxy.Util.MessageBox.{is_digit, int10}

pub record Uri : Type 0 where
  pub protocol : Text
  pub host : Text
  pub port : ℕ
  pub path : Text

-- `text.split(c, 1)`, of a text that has the byte
unfoldable pub split_on : ℕ → Text → Option (Text × Text)
split_on c [] = none
split_on c (x ∷ xs) =
    let rest = split_on c xs in
    if x == c then some ([], xs) else elim rest [ none ↦ none | some p ↦ some (x ∷ p.0, p.1) ]

-- `self.uri.split('://', 1)`
unfoldable pub split_scheme : Text → Option (Text × Text)
split_scheme [] = none
split_scheme (x ∷ xs) =
    let rest = split_scheme xs in
    if starts_with (58 ∷ 47 ∷ 47 ∷ []) (x ∷ xs)
    then some ([], drop 2 xs)
    else elim rest [ none ↦ none | some p ↦ some (x ∷ p.0, p.1) ]

-- `int` raises a ValueError of an empty text as well.
unfoldable pub checkport : Text → Option ℕ
checkport port = if is_digit port then some (int10 0 port) else none

abbrev pub with_port : Text → Text → Text → Option ℕ → Option Uri
with_port protocol host path none = none
with_port protocol host path (some n) =
    some (record { protocol = protocol; host = host; port = n; path = path })

-- `if ':' in host`
unfoldable pub host_port : Text → Text → Text → Option Uri
host_port protocol path text = elim (split_on 58 text) [
  | none ↦ with_port protocol text path (some 80)
  | some parts ↦ with_port protocol parts.0 path (checkport parts.1)
]

-- The port after an IPv6 address that has a path
abbrev bracket_port : Text → Option ℕ
bracket_port [] = some 80
bracket_port (c ∷ cs) = if c == 58 then checkport cs else none

-- `port,path = remaining.split('/')`, which has no limit: more than one slash is a ValueError.
abbrev bracket_path : Text → Text → Option (Text × Text) → Option Uri
bracket_path protocol host none = none
bracket_path protocol host (some (port, path)) =
    if mem 47 path then none else with_port protocol host (47 ∷ path) (bracket_port port)

unfoldable pub bracketed : Text → Text → Text → Option Uri
bracketed protocol host remaining =
    if mem 47 remaining
    then bracket_path protocol host (split_on 47 remaining)
    else with_port protocol host [] (checkport remaining)

-- `uri.startswith('[') and ']' in uri`
unfoldable pub ipv6_host : Text → Option (Text × Text)
ipv6_host [] = none
ipv6_host (c ∷ cs) = if c == 91 then split_on 93 cs else none

unfoldable pub parse_host : Text → Text → Option Uri
parse_host protocol uri = elim (ipv6_host uri) [
  | some parts ↦ bracketed protocol parts.0 parts.1
  | none ↦ elim (split_on 47 uri) [
    | none ↦ host_port protocol (47 ∷ []) uri
    | some parts ↦ host_port protocol (47 ∷ parts.1) parts.0
  ]
]

abbrev pub http_name : Text
http_name = 104 ∷ 116 ∷ 116 ∷ 112 ∷ []

unfoldable pub parse : Text → Option Uri
parse uri = elim (split_scheme uri) [
  | none ↦ parse_host http_name uri
  | some parts ↦ if mem 47 parts.0 then parse_host http_name uri else parse_host parts.0 parts.1
]
