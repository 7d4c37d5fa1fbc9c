-- ===== src/Poller/Answered.antt =====
-- What a poller answers: the sockets under a name.
use Prim.Native.String.{String}
use exaproxy.Common.{
  ℕ, ◌≡◌, true, some, List, arith, text_key, mem, ◌==◌, Bool-cases, inl, inr, subst,
}
use exaproxy.Dict.{Dict, lookup, insert, lookup-insert}

abbrev pub Answer : Type 0
Answer = Dict String (List ℕ)

-- Every socket that is answered under a name satisfies what the names and sockets are held against.
abbrev pub AllAnswered : (String → ℕ → Type 0) → Answer → Type 0
AllAnswered P answer =
    (m : String) (t : ℕ) (l : List ℕ) → lookup m answer ≡ some l → mem t l ≡ true → P m t

module _ (P : String → ℕ → Type 0) where
  pub insert-AllAnswered :
      (n : String) (l : List ℕ) (answer : Answer)
      → AllAnswered P answer
      → ((t : ℕ) → mem t l ≡ true → P n t)
      → AllAnswered P (insert n l answer)
  insert-AllAnswered n l answer all h m t k found there = elim (Bool-cases (n == m)) [
    | inl hit ↦
        let same_name : n ≡ m = (text_key.same_iff n m).0 hit in
        let same_list : l ≡ k = ground (arith, lookup-insert n m l answer) in
        subst (λ x. P x t) same_name (h t (rw same_list there))
    | inr miss ↦ all m t k (ground (arith, lookup-insert n m l answer)) there
  ]
