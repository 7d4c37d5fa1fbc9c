-- ===== src/Http/Request/RoundTrip.antt =====
-- lib/exaproxy/http/request.py: the URI of a host and a port is taken apart as it was written.
use mathlib.Core.List.{append_assoc}
use exaproxy.Common.{
  ℕ, ◌≡◌, refl, sym, ap, ◌∙◌, true, false, none, some, [], ◌∷◌, ◌++◌, mem, nat_beq_iff, arith, ◌==◌,
  number_key,
}
use exaproxy.Client.Http.{Text, starts_with}
use exaproxy.Util.MessageBox.{is_digit, all_digits, int10}
use exaproxy.Util.MessageBox.Size.{is_digit_all}
use exaproxy.Http.Request.{
  split_on, split_scheme, checkport, host_port, ipv6_host, parse_host, http_name, parse, with_port,
}

split_on-append : (c : ℕ) (p s : Text) → mem c p ≡ false → split_on c (p ++ c ∷ s) ≡ some (p, s)
unfolding split_on
split_on-append c [] s other =
    let same : (c == c) ≡ true = grind (arith, nat_beq_iff c c) in rw same refl
split_on-append c (x ∷ p) s other =
    let differs : (x == c) ≡ false = grind arith in
    let rest : mem c p ≡ false = grind arith in rw differs (rw (split_on-append c p s rest) refl)

mem-digits : (d : Text) → all_digits d ≡ true → mem 47 d ≡ false
mem-digits [] digits = refl
mem-digits (x ∷ d) digits = grind (arith, mem-digits d)

mem-colon :
    (host d : Text) → mem 47 host ≡ false → mem 47 d ≡ false → mem 47 (host ++ 58 ∷ d) ≡ false
mem-colon [] d left right = right
mem-colon (x ∷ host) d left right = grind (arith, mem-colon host d)

ipv6_host-colon : (host text : Text) → mem 91 host ≡ false → ipv6_host (host ++ 58 ∷ text) ≡ none
unfolding ipv6_host
ipv6_host-colon [] text other = refl
ipv6_host-colon (x ∷ host) text other =
    let differs : (x == 91) ≡ false = grind arith in rw differs refl

-- `http://host:digits/path`
abbrev pub url : Text → Text → Text → Text
url host digits path = http_name ++ 58 ∷ 47 ∷ 47 ∷ (host ++ 58 ∷ (digits ++ 47 ∷ path))

checkport-digits :
    (digits : Text) → is_digit digits ≡ true → checkport digits ≡ some (int10 0 digits)
unfolding checkport
checkport-digits digits are_digits = rw (are_digits, checkport) refl

split_scheme-http :
    (rest : Text) → split_scheme (http_name ++ 58 ∷ 47 ∷ 47 ∷ rest) ≡ some (http_name, rest)
unfolding split_scheme starts_with
split_scheme-http rest = refl

host_port-colon :
    (protocol path host digits : Text)
    → mem 58 host ≡ false
    → is_digit digits ≡ true
    → host_port protocol path (host ++ 58 ∷ digits)
      ≡ some (record { protocol = protocol; host = host; port = int10 0 digits; path = path })
unfolding host_port checkport
host_port-colon protocol path host digits plain are_digits =
    rw (split_on-append 58 host digits plain, host_port)
      (ap (with_port protocol host path) (checkport-digits digits are_digits))

parse_host-url :
    (host digits path : Text)
    → mem 47 host ≡ false
    → mem 58 host ≡ false
    → mem 91 host ≡ false
    → is_digit digits ≡ true
    → parse_host http_name (host ++ 58 ∷ (digits ++ 47 ∷ path))
      ≡ some (record { protocol = http_name; host = host; port = int10 0 digits; path = 47 ∷ path })
unfolding parse_host
parse_host-url host digits path no_slash no_colon no_bracket are_digits =
    let rest = host ++ 58 ∷ (digits ++ 47 ∷ path) in
    let shifted : (host ++ 58 ∷ digits) ++ 47 ∷ path ≡ rest =
      append_assoc host (58 ∷ digits) (47 ∷ path) in
    let split : split_on 47 rest ≡ some (host ++ 58 ∷ digits, path) =
      ap (split_on 47) (sym shifted)
      ∙ split_on-append 47 (host ++ 58 ∷ digits) path
          (mem-colon host digits no_slash (mem-digits digits (is_digit_all digits are_digits))) in
    rw (ipv6_host-colon host (digits ++ 47 ∷ path) no_bracket, parse_host)
      (rw (split, parse_host)
        (host_port-colon http_name (47 ∷ path) host digits no_colon are_digits))

-- A URI of a host with no slash, colon or bracket, of a port and of any path is taken apart as it was written.
pub parse-url :
    (host digits path : Text)
    → mem 47 host ≡ false
    → mem 58 host ≡ false
    → mem 91 host ≡ false
    → is_digit digits ≡ true
    → parse (url host digits path)
      ≡ some (record { protocol = http_name; host = host; port = int10 0 digits; path = 47 ∷ path })
unfolding parse
parse-url host digits path no_slash no_colon no_bracket are_digits =
    rw (split_scheme-http (host ++ 58 ∷ (digits ++ 47 ∷ path)), parse)
      (parse_host-url host digits path no_slash no_colon no_bracket are_digits)
