-- ===== src/Util/Proxy.antt =====
-- lib/exaproxy/util/proxy.py, class `ProxyProtocol`: the line that a proxy sends before a connection. A
-- text is a list of bytes. Whether an address is one of IPv4 or IPv6 is asked of the operating system:
-- `is_ip4` for `inet_aton`, `is_ip6` for `inet_pton`; both raise for None, which makes it invalid.
pub mod RoundTrip
mod Tests
use exaproxy.Common.{
  ℕ, Bool, true, false, ◌&&◌, Option, none, some, List, [], ◌∷◌, ◌++◌, if◌then◌else◌, number_key,
  ◌==◌,
}

abbrev pub Bytes : Type 0
Bytes = List ℕ

abbrev pub same_bytes : Bytes → Bytes → Bool
same_bytes [] [] = true
same_bytes [] (y ∷ ys) = false
same_bytes (x ∷ xs) [] = false
same_bytes (x ∷ xs) (y ∷ ys) = (x == y) && same_bytes xs ys

-- `'\r\n' in header` and `header.split('\r\n', 1)`
unfoldable pub split_line : Bytes → Option (Bytes × Bytes)
split_line [] = none
split_line (x ∷ []) = none
split_line (x ∷ y ∷ rest) =
    let later = split_line (y ∷ rest) in
    if (x == 13) && (y == 10)
    then some ([], rest)
    else elim later [ none ↦ none | some lines ↦ some (x ∷ lines.0, lines.1) ]

-- `line.split(' ')`, the first field and the others
unfoldable pub fields : Bytes → Bytes × List Bytes
fields [] = ([], [])
fields (x ∷ xs) =
    let rest = fields xs in if x == 32 then ([], rest.0 ∷ rest.1) else (x ∷ rest.0, rest.1)

-- "PROXY", "TCP4" and "TCP6"
abbrev pub word_proxy : Bytes
word_proxy = 80 ∷ 82 ∷ 79 ∷ 88 ∷ 89 ∷ []

abbrev pub word_tcp4 : Bytes
word_tcp4 = 84 ∷ 67 ∷ 80 ∷ 52 ∷ []

abbrev pub word_tcp6 : Bytes
word_tcp6 = 84 ∷ 67 ∷ 80 ∷ 54 ∷ []

-- `magic, fproto, source`, where the line has six fields
abbrev pub three_of : Bytes × List Bytes → Option (Bytes × Bytes × Bytes)
three_of (magic, fproto ∷ source ∷ destination ∷ sport ∷ dport ∷ []) = some (magic, fproto, source)
three_of _ = none

module _ (is_ip4 is_ip6 : Bytes → Bool) where
  -- An unknown protocol validates no address.
  abbrev pub validate : Bytes → Bytes → Option Bytes
  validate fproto source =
      if same_bytes fproto word_tcp4
      then (if is_ip4 source then some source else none)
      else if same_bytes fproto word_tcp6
      then (if is_ip6 source then some source else none)
      else none

  abbrev pub parse_parts : Option (Bytes × Bytes × Bytes) → Bytes → Option Bytes × Option Bytes
  parse_parts none request = (none, none)
  parse_parts (some (magic, fproto, source)) request =
      if same_bytes magic word_proxy then (validate fproto source, some request) else (none, none)

  -- the address of the client, and what follows the line
  unfoldable pub parse : Bytes → Option Bytes × Option Bytes
  parse header = elim (split_line header) [
    | none ↦ (none, none)
    | some lines ↦ parse_parts (three_of (fields lines.0)) lines.1
  ]
