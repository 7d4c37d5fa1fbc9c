-- ===== src/Tls/Hello/RoundTrip.antt =====
-- `parse_hello` of a client hello that is written out gives the name in it.
use exaproxy.Common.{
  ℕ, ◌+◌, ◌/◌, ◌%◌, ◌≡◌, ◌∙◌, ap, refl, false, some, List, [], ◌∷◌, ◌++◌, length, take, ltb,
  number_key, arith,
}
use exaproxy.Tls.Hello.{
  Bytes, hostname, byte, short, in_extensions, in_names, after_compression, from_compression,
  from_ciphers, from_session, from_handshake, parse_hello,
}
use exaproxy.Tls.Hello.Parts.{
  u16, short-u16, skip, take_all, entry, extension_of, Other, entries, extensions, length-entries,
  length-extensions, names-entries, extension-extensions,
}

-- The parts of a client hello: `opening` is the kind, the length, the version and the random bytes.
pub record ClientHello : Type 0 where
  pub minor : ℕ
  pub opening : Bytes
  pub session : Bytes
  pub ciphers : Bytes
  pub compression : Bytes
  pub extensions_before : List Other
  pub names_before : List Other
  pub name : Bytes
  pub names_after : Bytes
  pub extensions_after : Bytes

pub parse_hello-record :
    (minor high low size x : ℕ) (rest : Bytes)
    → short (high ∷ low ∷ []) ≡ some size
    → parse_hello (0x16 ∷ 3 ∷ minor ∷ high ∷ low ∷ x ∷ rest)
      ≡ from_handshake (take (size + 5) (x ∷ rest))
unfolding parse_hello byte
parse_hello-record minor high low size x rest h =
    let long : ltb (length (0x16 ∷ 3 ∷ minor ∷ high ∷ low ∷ x ∷ rest)) 6 ≡ false = ground arith in
    rw (long, h) refl

module _ (h : ClientHello) where
  abbrev pub name_list : Bytes
  name_list = entries h.names_before (entry 0 h.name ++ h.names_after)

  abbrev pub extension_list : Bytes
  extension_list =
      extensions h.extensions_before
        (extension_of 0 (u16 (length name_list) ++ name_list) ++ h.extensions_after)

  abbrev pub part4 : Bytes
  part4 = u16 (length extension_list) ++ extension_list

  abbrev pub part3 : Bytes
  part3 = length h.compression ∷ (h.compression ++ part4)

  abbrev pub part2 : Bytes
  part2 = u16 (length h.ciphers) ++ h.ciphers ++ part3

  abbrev pub part1 : Bytes
  part1 = length h.session ∷ (h.session ++ part2)

  abbrev pub handshake : Bytes
  handshake = 1 ∷ (h.opening ++ part1)

  -- the record that a client sends
  unfoldable pub written : Bytes
  written = 0x16 ∷ 3 ∷ h.minor ∷ (u16 (length handshake) ++ handshake)

  in_extensions-written : in_extensions extension_list ≡ hostname h.name
  in_extensions-written =
      let after = entry 0 h.name ++ h.names_after in
      let last = extension_of 0 (u16 (length name_list) ++ name_list) ++ h.extensions_after in
      ap in_names (
        extension-extensions (length extension_list) h.extensions_before (length name_list / 256)
          (length name_list % 256) name_list h.extensions_after
          (omega (arith, length-extensions h.extensions_before last)))
      ∙ (names-entries (length name_list) h.names_before h.name h.names_after
          (omega (arith, length-entries h.names_before after)))

  after_compression-written : after_compression part4 ≡ hostname h.name
  after_compression-written = rw (short-u16 (length extension_list)) (
      ap in_extensions (take_all (length extension_list) extension_list (omega arith))
      ∙ in_extensions-written)

  from_compression-written : from_compression part3 ≡ hostname h.name
  unfolding byte
  from_compression-written =
      ap after_compression
        (skip (length h.compression + 1) (length h.compression ∷ h.compression) part4 (omega arith))
      ∙ after_compression-written

  from_ciphers-written : from_ciphers part2 ≡ hostname h.name
  from_ciphers-written = rw (short-u16 (length h.ciphers)) (
      ap from_compression
        (skip (length h.ciphers + 2) (u16 (length h.ciphers) ++ h.ciphers) part3 (omega arith))
      ∙ from_compression-written)

  from_session-written : from_session part1 ≡ hostname h.name
  unfolding byte
  from_session-written =
      ap from_ciphers
        (skip (length h.session + 1) (length h.session ∷ h.session) part2 (omega arith))
      ∙ from_ciphers-written

  from_handshake-written : length h.opening ≡ 37 → from_handshake handshake ≡ hostname h.name
  unfolding byte
  from_handshake-written size =
      ap from_session (skip 38 (1 ∷ h.opening) part1 (omega arith)) ∙ from_session-written

  -- A client hello that is written out, with 37 bytes of length, version and random, any
  -- extensions of other kinds before that of the server name and any entries of other kinds before
  -- the name in it, gives that name.
  pub parse_hello-written : length h.opening ≡ 37 → parse_hello written ≡ hostname h.name
  unfolding written
  parse_hello-written size =
      parse_hello-record h.minor (length handshake / 256) (length handshake % 256)
        (length handshake) 1 (h.opening ++ part1) (short-u16 (length handshake))
      ∙ ap from_handshake (take_all (length handshake + 5) handshake (omega arith))
      ∙ from_handshake-written size
