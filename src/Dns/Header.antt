-- ===== src/Dns/Header.antt =====
-- lib/exaproxy/dns/codec.py, class `DNSHeader`, and `u16` of convert.py. `none` is a struct.error, which
-- a text of another length than two bytes raises.
pub mod Flags
use exaproxy.Common.{ℕ, ◌+◌, ◌*◌, ◌/◌, ◌%◌, ◌^◌, Option, none, some, List, [], ◌∷◌, take, drop}

abbrev pub Text : Type 0
Text = List ℕ

unfoldable pub u16 : Text → Option ℕ
u16 (a ∷ b ∷ []) = some (a * 256 + b)
u16 _ = none

infixl 20 ◌>>=◌
abbrev ◌>>=◌ {ℓ κ} : {A : Type ℓ} {B : Type κ} → Option A → (A → Option B) → Option B
none >>= next = none
some x >>= next = next x

pub record DnsHeader : Type 0 where
  pub identifier : ℕ
  pub qr : ℕ
  pub opcode : ℕ
  pub aa : ℕ
  pub tc : ℕ
  pub rd : ℕ
  pub ra : ℕ
  pub z : ℕ
  pub ad : ℕ
  pub cd : ℕ
  pub rcode : ℕ
  pub query_len : ℕ
  pub response_len : ℕ
  pub authority_len : ℕ
  pub additional_len : ℕ

-- `>> k` is a division by 2 ^ k, `& 1` a remainder by 2, `& 15` one by 16
unfoldable pub with_flags : ℕ → ℕ → ℕ → ℕ → ℕ → ℕ → DnsHeader
with_flags identifier flags queries responses authorities additionals = record {
  identifier = identifier;
  qr = flags / 2 ^ 15;
  opcode = flags / 2 ^ 11 % 16;
  aa = flags / 2 ^ 10 % 2;
  tc = flags / 2 ^ 9 % 2;
  rd = flags / 2 ^ 8 % 2;
  ra = flags / 2 ^ 7 % 2;
  z = flags / 2 ^ 6 % 2;
  ad = flags / 2 ^ 5 % 2;
  cd = flags / 2 ^ 4 % 2;
  rcode = flags % 2;
  query_len = queries;
  response_len = responses;
  authority_len = authorities;
  additional_len = additionals;
}

unfoldable pub dns_header : Text → Option DnsHeader
dns_header packet = do
  identifier ← u16 (take 2 packet)
  flags ← u16 (take 2 (drop 2 packet))
  queries ← u16 (take 2 (drop 4 packet))
  responses ← u16 (take 2 (drop 6 packet))
  authorities ← u16 (take 2 (drop 8 packet))
  additionals ← u16 (take 2 (drop 10 packet))
  some (with_flags identifier flags queries responses authorities additionals)
