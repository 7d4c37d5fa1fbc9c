-- ===== src/Dict.antt =====
-- Python's `dict` (and `OrderedDict`): keys in the order of their first insertion, an association
-- list whose laws are stated through `lookup`.
use exaproxy.Common.{
  suc, ◌≡◌, refl, Bool, true, false, Option, none, some, List, [], ◌∷◌, arith, if◌then◌else◌, Key,
  ◌==◌, length, ◌<◌, ◌≤◌,
}

abbrev pub Dict {ℓ κ} : Type ℓ → Type κ → Type (ℓ ⊔ κ)
Dict K V = List (K × V)

module _ {ℓ κ} {K : Type ℓ} {V : Type κ} ⦃e : Key K⦄ where
  -- d.get(k)
  unfoldable pub lookup : K → Dict K V → Option V
  lookup k [] = none
  lookup k ((j, v) ∷ d) = if j == k then some v else lookup k d

  -- d[k] = v
  unfoldable pub insert : K → V → Dict K V → Dict K V
  insert k v [] = (k, v) ∷ []
  insert k v ((j, w) ∷ d) = if j == k then (j, v) ∷ d else (j, w) ∷ insert k v d

  -- d.pop(k, None)
  unfoldable pub remove : K → Dict K V → Dict K V
  remove k [] = []
  remove k ((j, w) ∷ d) = let rest = remove k d in if j == k then rest else (j, w) ∷ rest

  -- k in d
  unfoldable pub contains : K → Dict K V → Bool
  unfolding lookup
  contains k d = elim (lookup k d) [ none ↦ false | some v ↦ true ]

  pub lookup-insert :
      (k j : K) (v : V) (d : Dict K V)
      → lookup j (insert k v d) ≡ (if k == j then some v else lookup j d)
  unfolding lookup insert
  lookup-insert k j v [] = refl
  lookup-insert k j v ((i, w) ∷ d) =
      ground (arith, e.same_iff k j, e.same_iff i k, e.same_iff i j, lookup-insert k j v d)

  pub lookup-remove :
      (k j : K) (d : Dict K V) → lookup j (remove k d) ≡ (if k == j then none else lookup j d)
  unfolding lookup remove
  lookup-remove k j [] = ground arith
  lookup-remove k j ((i, w) ∷ d) =
      ground (arith, e.same_iff k j, e.same_iff i k, e.same_iff i j, lookup-remove k j d)

  pub contains-lookup :
      (k : K) (d : Dict K V)
      → contains k d ≡ (let b : Bool = elim (lookup k d) [ none ↦ false | some v ↦ true ] in b)
  unfolding contains
  contains-lookup k d = refl

  pub contains-insert :
      (k j : K) (v : V) (d : Dict K V)
      → contains j (insert k v d) ≡ (if k == j then true else contains j d)
  unfolding lookup insert contains
  contains-insert k j v [] = ground arith
  contains-insert k j v ((i, w) ∷ d) =
      ground (arith, e.same_iff k j, e.same_iff i k, e.same_iff i j, contains-insert k j v d)

  pub contains-remove :
      (k j : K) (d : Dict K V) → contains j (remove k d) ≡ (if k == j then false else contains j d)
  unfolding lookup remove contains
  contains-remove k j [] = ground arith
  contains-remove k j ((i, w) ∷ d) =
      ground (arith, e.same_iff k j, e.same_iff i k, e.same_iff i j, contains-remove k j d)

  -- Taking out a key that is not there changes nothing.
  pub remove-absent : (k : K) (d : Dict K V) → contains k d ≡ false → remove k d ≡ d
  unfolding lookup remove contains
  remove-absent k [] h = refl
  remove-absent k ((i, w) ∷ d) h = ground (arith, remove-absent k d)

  length-remove_le : (k : K) (d : Dict K V) → length (remove k d) ≤ length d
  unfolding remove
  length-remove_le k [] = omega arith
  length-remove_le k ((i, w) ∷ d) = ground (arith, length-remove_le k d)

  -- Taking out a key that is there makes the dictionary shorter.
  pub length-remove : (k : K) (d : Dict K V) → contains k d ≡ true → length (remove k d) < length d
  unfolding lookup remove contains
  length-remove k [] h = absurd cc
  length-remove k ((i, w) ∷ d) h = ground (arith, length-remove k d, length-remove_le k d)

  pub length-insert :
      (k : K) (v : V) (d : Dict K V)
      → length (insert k v d) ≡ (if contains k d then length d else suc (length d))
  unfolding lookup insert contains
  length-insert k v [] = refl
  length-insert k v ((i, w) ∷ d) = ground (arith, length-insert k v d)

module _ {ℓ κ} {K : Type ℓ} {V : Type κ} ⦃e : Key K⦄ where
  pub lookup-empty : (k : K) → lookup k (let d : Dict K V = [] in d) ≡ none
  unfolding lookup
  lookup-empty k = refl

pub ruleset dict_laws =
    (lookup-insert, lookup-remove, lookup-empty, contains-insert, contains-remove)
