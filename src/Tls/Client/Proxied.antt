-- ===== src/Tls/Client/Proxied.antt =====
-- A client behind a proxy is served as one that is not.
use exaproxy.Common.{
  ℕ, ◌≡◌, refl, Bool, true, false, none, some, List, [], ◌∷◌, ◌++◌, mem, arith, number_key, ◌⊎◌,
}
use exaproxy.Util.Proxy.{Bytes, word_tcp4, word_tcp6}
use exaproxy.Util.Proxy.RoundTrip.{line_of, IsField, parse-line_of}
use exaproxy.Client.Http.Relay.{lstrip}
use exaproxy.Tls.Client.{Checked, rejected, waiting, complete, check_request}
use exaproxy.Tls.Client.Relay.{
  Mode, Received, got, TlsReader, create, Turn, checked_hello, read_proxied, read_turn, has_line,
}

abbrev pub with_peer : Bytes → Turn → Turn
with_peer client none = none
with_peer client (some (given, reads, r)) = some (given, reads, record r { peer = some client })

checked_hello_peer :
    (client : Bytes) (reads : List Received) (r : TlsReader) (c : Checked)
    → checked_hello reads (record r { peer = some client }) c
      ≡ with_peer client (checked_hello reads r c)
checked_hello_peer client reads r rejected = refl
checked_hello_peer client reads r (waiting buffer size) = refl
checked_hello_peer client reads r (complete hello buffer size) = refl

mem-newline : (xs rest : Bytes) → mem 10 (xs ++ 13 ∷ 10 ∷ rest) ≡ true
mem-newline [] rest = refl
mem-newline (x ∷ xs) rest = ground (arith, mem-newline xs rest)

-- A line of the proxy protocol in front of the first bytes of a hello, in one read: the client gets what it
-- would get without a proxy for these bytes, with the source of the line as its address, where
-- the operating system takes that for an address of its kind.
pub read_turn-proxied :
    (is_ip4 is_ip6 : Bytes → Bool) (max_buffer : ℕ) (mode : Mode) (reads : List Received)
    (fproto source destination sport dport : Bytes) (x : ℕ) (xs : Bytes)
    → (fproto ≡ word_tcp4) × (is_ip4 source ≡ true) ⊎ (fproto ≡ word_tcp6) × (is_ip6 source ≡ true)
    → IsField source
    → IsField destination
    → IsField sport
    → IsField dport
    → read_turn is_ip4 is_ip6 max_buffer mode
        (got (line_of fproto source destination sport dport ++ 13 ∷ 10 ∷ x ∷ xs) ∷ reads)
        (create true)
      ≡ with_peer source
          (read_turn is_ip4 is_ip6 max_buffer mode (got (x ∷ xs) ∷ reads) (create false))
unfolding read_turn read_proxied create lstrip
read_turn-proxied is_ip4 is_ip6 max_buffer mode reads fproto source destination sport dport x xs
      valid s d p q =
    let line = line_of fproto source destination sport dport in
    let read =
      parse-line_of is_ip4 is_ip6 fproto source destination sport dport (x ∷ xs) valid s d p q in
    let found : has_line (line ++ 13 ∷ 10 ∷ x ∷ xs) ≡ true = mem-newline line (x ∷ xs) in
    rw (found, read)
      (checked_hello_peer source reads _ (check_request (x ∷ xs) max_buffer (some 0)))
