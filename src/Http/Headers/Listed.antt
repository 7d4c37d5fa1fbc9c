-- ===== src/Http/Headers/Listed.antt =====
-- lib/exaproxy/http/headers.py: the list of names and the dictionary of their values agree, where `replace`
-- and `default` are not called.
use exaproxy.Common.{
  ◌≡◌, refl, Bool, true, false, not, ◌&&◌, some, List, [], ◌∷◌, ◌++◌, if◌then◌else◌, arith, ◌==◌,
  Option-cases, Bool-cases, inl, inr,
}
use exaproxy.Dict.{lookup, insert, contains, contains-lookup, contains-insert, contains-remove}
use exaproxy.Client.Http.{Text}
use exaproxy.Http.Headers.{
  Headers, name_key, is_listed, unlist, create, set, extend, Popped, popped, missing, unlisted, pop,
}

abbrev pub are_unique : List Text → Bool
are_unique [] = true
are_unique (name ∷ names) = not (is_listed name names) && are_unique names

-- No name is listed twice, and the names that are listed are those that have values.
unfoldable pub IsListed : Headers → Type 0
IsListed h =
    (are_unique h.order ≡ true) × ((key : Text) → is_listed key h.order ≡ contains key h.values)

is_listed-append :
    (j k : Text) (names : List Text)
    → is_listed j (names ++ k ∷ []) ≡ (if k == j then true else is_listed j names)
is_listed-append j k [] = refl
is_listed-append j k (name ∷ names) = ground (arith, is_listed-append j k names)

are_unique-append :
    (k : Text) (names : List Text)
    → is_listed k names ≡ false
    → are_unique names ≡ true
    → are_unique (names ++ k ∷ []) ≡ true
are_unique-append k [] new unique = refl
are_unique-append k (name ∷ names) new unique = ground (
  arith,
  name_key.same_iff k name,
  name_key.same_iff name k,
  is_listed-append name k names,
  are_unique-append k names,
)

is_listed-unlist :
    (j k : Text) (names : List Text)
    → are_unique names ≡ true
    → is_listed j (unlist k names) ≡ (if k == j then false else is_listed j names)
unfolding unlist
is_listed-unlist j k [] unique = ground arith
is_listed-unlist j k (name ∷ names) unique = ground (
  arith,
  name_key.same_iff k j,
  name_key.same_iff name k,
  name_key.same_iff name j,
  is_listed-unlist j k names,
)

are_unique-unlist :
    (k : Text) (names : List Text) → are_unique names ≡ true → are_unique (unlist k names) ≡ true
unfolding unlist
are_unique-unlist k [] unique = refl
are_unique-unlist k (name ∷ names) unique =
    ground (arith, is_listed-unlist name k names, are_unique-unlist k names)

pub create-IsListed : IsListed create
unfolding IsListed create contains lookup
create-IsListed = (refl, λ key. refl)

same_self : (k : Text) → (k == k) ≡ true
same_self k = ground (arith, name_key.same_iff k k)

pub set-IsListed : (key value : Text) (h : Headers) → IsListed h → IsListed (set key value h)
unfolding IsListed set
set-IsListed key value h (unique, agree) = elim (Bool-cases (is_listed key h.order)) [
  | inl there ↦ (
    rw there unique,
    λ k. rw there (
        ground (
          arith,
          agree k,
          agree key,
          name_key.same_iff key k,
          contains-insert key k (value ∷ []) h.values,
        )),
  )
  | inr new ↦ (
    rw new (are_unique-append key h.order new unique),
    λ k. rw new (
        ground (
          arith,
          agree k,
          is_listed-append k key h.order,
          contains-insert key k (value ∷ []) h.values,
        )),
  )
]

-- Where the names and the dictionary agree, `extend` raises no KeyError.
pub extend-IsListed :
    (key value : Text) (h : Headers)
    → IsListed h
    → (g : Headers) × (extend key value h ≡ some g) × IsListed g
unfolding IsListed extend
extend-IsListed key value h (unique, agree) = elim (Bool-cases (is_listed key h.order)) [
  | inl there ↦ elim (Option-cases (lookup key h.values)) [
    | inl nothing ↦ absurd (ground (arith, agree key, contains-lookup key h.values))
    | inr (lines, found) ↦
        let g : Headers = record {
          order = h.order;
          values = insert key (lines ++ value ∷ []) h.values;
        } in
        (
          g,
          rw (there, found, extend) refl,
          (
            unique,
            λ k. ground (
              arith,
              agree k,
              agree key,
              name_key.same_iff key k,
              contains-insert key k (lines ++ value ∷ []) h.values,
            ),
          ),
        )
  ]
  | inr new ↦
      let g : Headers = record {
        order = h.order ++ key ∷ [];
        values = insert key (value ∷ []) h.values;
      } in
      (
        g,
        rw (new, extend) refl,
        (
          are_unique-append key h.order new unique,
          λ k. ground (
            arith,
            agree k,
            is_listed-append k key h.order,
            contains-insert key k (value ∷ []) h.values,
          ),
        ),
      )
]

-- What `pop` may do of headers that agree: never a ValueError.
unfoldable pub PopsListed : Popped → Type 0
PopsListed (popped lines h) = IsListed h
PopsListed (missing h) = IsListed h
PopsListed (unlisted h) = ⊥

pub pop-PopsListed : (key : Text) (h : Headers) → IsListed h → PopsListed (pop key h)
unfolding IsListed PopsListed pop
pop-PopsListed key h (unique, agree) = elim (Option-cases (lookup key h.values)) [
  | inl nothing ↦ rw (nothing, pop) (unique, agree)
  | inr (lines, found) ↦
      let there : is_listed key h.order ≡ true =
        ground (arith, agree key, contains-lookup key h.values) in
      rw (found, pop)
        (rw there (
          are_unique-unlist key h.order unique,
          λ k. ground (
            arith,
            agree k,
            is_listed-unlist k key h.order unique,
            contains-remove key k h.values,
          ),
        ))
]
