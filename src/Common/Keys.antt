-- ===== src/Common/Keys.antt =====
-- What Python's `==` decides for keys of dictionaries and members of sets.
use Prim.Native.Nat.{ℕ}
use Prim.Native.String.{String}
use mathlib.Core.Path.{◌≡◌}
use mathlib.Core.Logic.{◌↔◌}
use mathlib.Core.Bool.{Bool, true, ◌&&◌}
use text.Mathlib.Text.{◌==◌ as text_beq}
use text.Mathlib.TextEquality.{eq_iff as text_beq_iff}
use native.Mathlib.Omega.{arith}
use exaproxy.Common.Tests.{nat_beq, nat_beq_iff}

pub record Key {ℓ} (K : Type ℓ) : Type ℓ where
  pub same : K → K → Bool
  pub same_iff : (j k : K) → (same j k ≡ true) ↔ (j ≡ k)

instance abbrev pub number_key : Key ℕ
number_key = record { same = nat_beq; same_iff = nat_beq_iff }

instance abbrev pub text_key : Key String
text_key = record { same = text_beq; same_iff = text_beq_iff }

pub same_pairs : (p q : ℕ × ℕ) → ((nat_beq p.0 q.0 && nat_beq p.1 q.1) ≡ true) ↔ (p ≡ q)
same_pairs p q = ground (arith, nat_beq_iff p.0 q.0, nat_beq_iff p.1 q.1)

instance abbrev pub pair_key : Key (ℕ × ℕ)
pair_key = record { same = λ p q. nat_beq p.0 q.0 && nat_beq p.1 q.1; same_iff = same_pairs }

infix 50 ◌==◌
abbrev pub ◌==◌ {ℓ} : {K : Type ℓ} ⦃key : Key K⦄ → K → K → Bool
◌==◌ ⦃key⦄ j k = key.same j k
