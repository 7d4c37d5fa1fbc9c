-- ===== src/Dns/Name/Pointers.antt =====
-- Names that point to names.
use exaproxy.Common.{
  ℕ, zero, suc, ◌+◌, ◌-◌, ◌*◌, ◌≤◌, ◌≡◌, ◌∙◌, ap, true, some, [], ◌∷◌, drop, leb, number_key, arith,
  refl,
}
use exaproxy.Dns.Name.{Text, labels, dns_string, join, still_running, follow, dns_to_string_info}

-- a pointer alone, at the start of a text
dns_string-pointer :
    (high low : ℕ) (rest : Text)
    → 0xc0 ≤ high
    → dns_string (high ∷ low ∷ rest)
      ≡ some (record { bytes_read = some 2; value = []; ptr = some ((high - 0xc0) * 256 + low) })
unfolding dns_string labels join
dns_string-pointer high low rest h =
    let pointer : leb 0xc0 high ≡ true = ground arith in rw pointer refl

follow_itself :
    (fuel : ℕ) (packet rest : Text) (ptr high low : ℕ)
    → drop ptr packet ≡ high ∷ low ∷ rest
    → 0xc0 ≤ high
    → (high - 0xc0) * 256 + low ≡ ptr
    → follow fuel packet [] (some ptr) ≡ still_running
unfolding follow
follow_itself zero packet rest ptr high low here h same = refl
follow_itself (suc fuel) packet rest ptr high low here h same =
    let found = ap dns_string here ∙ dns_string-pointer high low rest h in
    rw (found, same, follow) (follow_itself fuel packet rest ptr high low here h same)

-- A name that is only a pointer to itself is never resolved, whatever the fuel: `dns_to_string_info` of
-- such a name in a packet does not return.
pub dns_to_string_info_loops :
    (fuel : ℕ) (packet rest : Text) (ptr high low : ℕ)
    → drop ptr packet ≡ high ∷ low ∷ rest
    → 0xc0 ≤ high
    → (high - 0xc0) * 256 + low ≡ ptr
    → dns_to_string_info fuel (drop ptr packet) packet ≡ some (some 2, still_running)
unfolding dns_to_string_info
dns_to_string_info_loops fuel packet rest ptr high low here h same =
    let found = ap dns_string here ∙ dns_string-pointer high low rest h in
    rw (found, same, dns_to_string_info)
      (ap (λ f. some (some 2, f)) (follow_itself fuel packet rest ptr high low here h same))
