-- ===== src/Util/Proxy/RoundTrip.antt =====
-- A line of the proxy protocol that is written is read back.
use exaproxy.Common.{
  ℕ, ◌≡◌, refl, ap, ◌∙◌, Bool, true, false, some, [], ◌∷◌, ◌++◌, number_key, ◌==◌, mem, arith,
  nat_beq_iff, ◌⊎◌, inl, inr,
}
use exaproxy.Util.Proxy.{
  Bytes, split_line, fields, three_of, word_proxy, word_tcp4, word_tcp6, validate, parse_parts,
  parse,
}

split_line-append :
    (line rest : Bytes)
    → mem 13 line ≡ false
    → split_line (line ++ 13 ∷ 10 ∷ rest) ≡ some (line, rest)
unfolding split_line
split_line-append [] rest h = refl
split_line-append (x ∷ []) rest h = ground (arith, nat_beq_iff x 13)
split_line-append (x ∷ y ∷ line) rest h =
    ground (arith, split_line-append (y ∷ line) rest, nat_beq_iff x 13)

fields-append :
    (field rest : Bytes)
    → mem 32 field ≡ false
    → fields (field ++ 32 ∷ rest) ≡ (field, (fields rest).0 ∷ (fields rest).1)
unfolding fields
fields-append [] rest h = refl
fields-append (x ∷ field) rest h = ground (arith, fields-append field rest)

fields-last : (field : Bytes) → mem 32 field ≡ false → fields field ≡ (field, [])
unfolding fields
fields-last [] h = refl
fields-last (x ∷ field) h = ground (arith, fields-last field)

-- the line, field by field
abbrev pub line_of : Bytes → Bytes → Bytes → Bytes → Bytes → Bytes
line_of fproto source destination sport dport =
    word_proxy
    ++ (32 ∷ (fproto ++ (32 ∷ (source ++ (32 ∷ (destination ++ (32 ∷ (sport ++ (32 ∷ dport)))))))))

-- no space and no return
abbrev pub IsField : Bytes → Type 0
IsField field = (mem 32 field ≡ false) × (mem 13 field ≡ false)

mem-join :
    (c : ℕ) (xs ys : Bytes)
    → mem c xs ≡ false
    → mem c ys ≡ false
    → c == 32 ≡ false
    → mem c (xs ++ 32 ∷ ys) ≡ false
mem-join c [] ys h k other = ground (arith, nat_beq_iff c 32, nat_beq_iff 32 c)
mem-join c (x ∷ xs) ys h k other = ground (arith, mem-join c xs ys)

module _ (fproto source destination sport dport : Bytes) (f : IsField fproto) (s : IsField source)
    (d : IsField destination) (p : IsField sport) (q : IsField dport) where
  fields-line_of :
      fields (line_of fproto source destination sport dport)
      ≡ (word_proxy, fproto ∷ source ∷ destination ∷ sport ∷ dport ∷ [])
  fields-line_of =
      rw
        (
          fields-append word_proxy
              (fproto ++ (32 ∷ (source ++ (32 ∷ (destination ++ (32 ∷ (sport ++ (32 ∷ dport))))))))
              refl,
          fields-append fproto (source ++ (32 ∷ (destination ++ (32 ∷ (sport ++ (32 ∷ dport))))))
              f.0,
          fields-append source (destination ++ (32 ∷ (sport ++ (32 ∷ dport)))) s.0,
          fields-append destination (sport ++ (32 ∷ dport)) d.0,
          fields-append sport dport p.0,
          fields-last dport q.0,
        )
        refl

  no_return : mem 13 (line_of fproto source destination sport dport) ≡ false
  no_return =
      let from_sport = sport ++ 32 ∷ dport in
      let from_destination = destination ++ 32 ∷ from_sport in
      let from_source = source ++ 32 ∷ from_destination in
      mem-join 13 word_proxy (fproto ++ 32 ∷ from_source) refl
        (mem-join 13 fproto from_source f.1
          (mem-join 13 source from_destination s.1
            (mem-join 13 destination from_sport d.1 (mem-join 13 sport dport p.1 q.1 refl) refl)
            refl)
          refl)
        refl

parse-fields :
    (is_ip4 is_ip6 : Bytes → Bool) (header line rest fproto source destination sport dport : Bytes)
    → split_line header ≡ some (line, rest)
    → fields line ≡ (word_proxy, fproto ∷ source ∷ destination ∷ sport ∷ dport ∷ [])
    → parse is_ip4 is_ip6 header ≡ (validate is_ip4 is_ip6 fproto source, some rest)
unfolding parse
parse-fields is_ip4 is_ip6 header line rest fproto source destination sport dport splits named =
    rw (splits, parse) (ap (λ f. parse_parts is_ip4 is_ip6 (three_of f) rest) named)

plain_tcp4 : IsField word_tcp4
plain_tcp4 = (refl, refl)

plain_tcp6 : IsField word_tcp6
plain_tcp6 = (refl, refl)

-- A line for TCP over IPv4 or IPv6, whose fields have no space and no return, gives its source where the
-- operating system takes it for an address of that kind, and everything that follows the line.
pub parse-line_of :
    (is_ip4 is_ip6 : Bytes → Bool) (fproto source destination sport dport rest : Bytes)
    → (fproto ≡ word_tcp4) × (is_ip4 source ≡ true) ⊎ (fproto ≡ word_tcp6) × (is_ip6 source ≡ true)
    → IsField source
    → IsField destination
    → IsField sport
    → IsField dport
    → parse is_ip4 is_ip6 (line_of fproto source destination sport dport ++ 13 ∷ 10 ∷ rest)
      ≡ (some source, some rest)
parse-line_of is_ip4 is_ip6 fproto source destination sport dport rest (inl (tcp4, valid)) s d p q =
    let line = line_of word_tcp4 source destination sport dport in
    let read =
      parse-fields is_ip4 is_ip6 (line ++ 13 ∷ 10 ∷ rest) line rest word_tcp4 source destination
        sport dport
        (split_line-append line rest
          (no_return word_tcp4 source destination sport dport plain_tcp4 s d p q))
        (fields-line_of word_tcp4 source destination sport dport plain_tcp4 s d p q) in
    rw tcp4 (read ∙ rw valid refl)
parse-line_of is_ip4 is_ip6 fproto source destination sport dport rest (inr (tcp6, valid)) s d p q =
    let line = line_of word_tcp6 source destination sport dport in
    let read =
      parse-fields is_ip4 is_ip6 (line ++ 13 ∷ 10 ∷ rest) line rest word_tcp6 source destination
        sport dport
        (split_line-append line rest
          (no_return word_tcp6 source destination sport dport plain_tcp6 s d p q))
        (fields-line_of word_tcp6 source destination sport dport plain_tcp6 s d p q) in
    rw tcp6 (read ∙ rw valid refl)
