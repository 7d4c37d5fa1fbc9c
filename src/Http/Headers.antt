-- ===== src/Http/Headers.antt =====
-- lib/exaproxy/http/headers.py: the container `Headers` and the loop of its `parse` over the lines. A text is
-- a list of bytes. What `parse` does after the loop is in Forwarded.
pub mod Parse
pub mod Listed
pub mod Printed
pub mod Kept
pub mod Forwarded
mod Tests
use exaproxy.Common.{
  ℕ, zero, suc, ◌+◌, ◌-◌, ◌%◌, ◌≡◌, refl, ap, ◌↔◌, Bool, true, false, not, ◌&&◌, ◌||◌, Option, none,
  some, List, [], ◌∷◌, ◌++◌, if◌then◌else◌, nat_beq, nat_beq_iff, leb, arith, Key, ◌==◌, number_key,
}
use exaproxy.Dict.{Dict, lookup, insert, remove, contains}
use exaproxy.Client.Http.{Text, count_quotes}

abbrev pub same_text : Text → Text → Bool
same_text [] [] = true
same_text [] (y ∷ ys) = false
same_text (x ∷ xs) [] = false
same_text (x ∷ xs) (y ∷ ys) = nat_beq x y && same_text xs ys

pub same_text_iff : (xs ys : Text) → (same_text xs ys ≡ true) ↔ (xs ≡ ys)
same_text_iff [] [] = ground arith
same_text_iff [] (y ∷ ys) = ground arith
same_text_iff (x ∷ xs) [] = ground arith
same_text_iff (x ∷ xs) (y ∷ ys) = ground (arith, nat_beq_iff x y, same_text_iff xs ys)

instance abbrev pub name_key : Key Text
name_key = record { same = same_text; same_iff = same_text_iff }

pub record Headers : Type 0 where
  pub order : List Text
  pub values : Dict Text (List Text)

unfoldable pub create : Headers
create = record { order = []; values = [] }

-- `key in self._order`
abbrev pub is_listed : Text → List Text → Bool
is_listed key [] = false
is_listed key (name ∷ names) = if name == key then true else is_listed key names

-- `self._order.remove(key)`, where the key is there
unfoldable pub unlist : Text → List Text → List Text
unlist key [] = []
unlist key (name ∷ names) =
    let rest = unlist key names in if name == key then names else name ∷ rest

unfoldable pub set : Text → Text → Headers → Headers
set key value h = record {
  order = if is_listed key h.order then h.order else h.order ++ key ∷ [];
  values = insert key (value ∷ []) h.values;
}

unfoldable pub replace : Text → Text → Headers → Headers
replace key value h = record { order = h.order; values = insert key (value ∷ []) h.values }

unfoldable pub default : Text → Text → Headers → Headers
default key value h = if contains key h.values then h else replace key value h

-- A name that is listed has its values, or the append raises a KeyError.
unfoldable pub extend : Text → Text → Headers → Option Headers
extend key value h =
    if is_listed key h.order
    then elim (lookup key h.values) [
      | none ↦ none
      | some lines ↦
          some (record { order = h.order; values = insert key (lines ++ value ∷ []) h.values })
    ]
    else some (record { order = h.order ++ key ∷ []; values = insert key (value ∷ []) h.values })

-- What `pop` gives: the values, nothing of that name, or a ValueError, with the values gone already.
pub data Popped : Type 0 where
  popped : List Text → Headers → Popped
  missing : Headers → Popped
  unlisted : Headers → Popped

unfoldable pub pop : Text → Headers → Popped
pop key h = elim (lookup key h.values) [
  | none ↦ missing h
  | some lines ↦
      if is_listed key h.order
      then popped lines (record { order = unlist key h.order; values = remove key h.values })
      else unlisted (record { order = h.order; values = remove key h.values })
]

-- `separator.join(texts)`
unfoldable pub join : Text → List Text → Text
join separator [] = []
join separator (t ∷ []) = t
join separator (t ∷ u ∷ us) = t ++ (separator ++ join separator (u ∷ us))

-- A name's lines in front of the other names'; a name without values raises a KeyError.
unfoldable pub with_block : Text → Option (List Text) → Option (List Text) → Option (List Text)
with_block separator none rest = none
with_block separator (some lines) none = none
with_block separator (some lines) (some texts) = some (join separator lines ∷ texts)

-- The list that `__str__` joins
unfoldable pub blocks : Text → Dict Text (List Text) → List Text → Option (List Text)
blocks separator values [] = some []
blocks separator values (name ∷ names) =
    with_block separator (lookup name values) (blocks separator values names)

abbrev joined : Text → Option (List Text) → Option Text
joined separator none = none
joined separator (some texts) = some (join separator texts)

unfoldable pub str : Text → Headers → Option Text
str separator h = joined separator (blocks separator h.values h.order)
