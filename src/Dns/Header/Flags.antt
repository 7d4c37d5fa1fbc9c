-- ===== src/Dns/Header/Flags.antt =====
-- The flags of a header, and what is read of them.
use exaproxy.Common.{ℕ, ◌+◌, ◌*◌, ◌%◌, ◌^◌, ◌<◌, ◌≡◌, some, ◌∷◌, arith, refl}
use exaproxy.Dns.Header.{Text, DnsHeader, with_flags, dns_header, u16}

-- the flags that the fields stand for, with the four bits of the return code
abbrev pub flags_of : DnsHeader → ℕ → ℕ
flags_of h code =
    h.qr * 2 ^ 15
    + h.opcode * 2 ^ 11
    + h.aa * 2 ^ 10
    + h.tc * 2 ^ 9
    + h.rd * 2 ^ 8
    + h.ra * 2 ^ 7
    + h.z * 2 ^ 6
    + h.ad * 2 ^ 5
    + h.cd * 2 ^ 4
    + code

-- Of the sixteen flags of a header, all are read as they stand but the return code: of its four bits only
-- the lowest is kept.
pub dns_header-flags :
    (i j high low : ℕ) (a b c d e f g h : ℕ) (rest : Text)
    → high < 256
    → low < 256
    → (header : DnsHeader) × (dns_header (i ∷ j ∷ high ∷ low ∷ a ∷ b ∷ c ∷ d ∷ e ∷ f ∷ g ∷ h ∷ rest)
        ≡ some header)
      × (flags_of header (low % 16) ≡ high * 256 + low)
      × (header.rcode ≡ low % 16 % 2)
unfolding dns_header u16 with_flags
dns_header-flags i j high low a b c d e f g h rest hi lo = (
  with_flags (i * 256 + j) (high * 256 + low) (a * 256 + b) (c * 256 + d) (e * 256 + f)
      (g * 256 + h),
  refl,
  omega arith,
  omega arith,
)
