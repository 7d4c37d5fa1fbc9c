-- ===== src/Http/Headers/Printed.antt =====
-- lib/exaproxy/http/headers.py: what `__str__` gives of headers.
use exaproxy.Common.{
  ◌≡◌, refl, sym, ap, ◌∙◌, true, false, Option, some, List, [], ◌∷◌, arith, ◌==◌, Option-cases, inl,
  inr,
}
use exaproxy.Dict.{Dict, lookup, insert, contains, contains-lookup, lookup-insert}
use exaproxy.Client.Http.{Text}
use exaproxy.Http.Headers.{Headers, name_key, is_listed, replace, blocks, with_block, str, join}
use exaproxy.Http.Headers.Listed.{IsListed}

blocks_lem :
    (separator : Text) (values : Dict Text (List Text)) (names : List Text)
    → ((j : Text) → is_listed j names ≡ true → contains j values ≡ true)
    → (ts : List Text) × (blocks separator values names ≡ some ts)
unfolding blocks with_block
blocks_lem separator values [] known = ([], refl)
blocks_lem separator values (name ∷ names) known =
    let (ts, went) = blocks_lem separator values names (λ j h. known j (ground (arith))) in
    elim (Option-cases (lookup name values)) [
      | inl nothing ↦
          absurd
            (ground (arith, known name, name_key.same_iff name name, contains-lookup name values))
      | inr (lines, found) ↦ (join separator lines ∷ ts, rw (found, went) refl)
    ]

-- Headers whose names and values agree have a text.
pub str-IsListed :
    (separator : Text) (h : Headers) → IsListed h → (text : Text) × (str separator h ≡ some text)
unfolding str IsListed
str-IsListed separator h (unique, agree) =
    let (ts, went) = blocks_lem separator h.values h.order (λ j there. sym (agree j) ∙ there) in
    (join separator ts, rw went refl)

blocks-insert :
    (separator key : Text) (lines : List Text) (values : Dict Text (List Text)) (names : List Text)
    → is_listed key names ≡ false
    → blocks separator (insert key lines values) names ≡ blocks separator values names
unfolding blocks
blocks-insert separator key lines values [] new = refl
blocks-insert separator key lines values (name ∷ names) new =
    let other : (key == name) ≡ false =
      ground (arith, name_key.same_iff key name, name_key.same_iff name key) in
    let rest : is_listed key names ≡ false = ground arith in
    let same : lookup name (insert key lines values) ≡ lookup name values =
      lookup-insert key name lines values ∙ (rw other refl) in
    ap
      (λ (o : Option (List Text)).
        with_block separator o (blocks separator (insert key lines values) names))
      same
    ∙ ap (with_block separator (lookup name values))
        (blocks-insert separator key lines values names rest)

-- `replace` of a name that is not listed leaves the text of the headers as it was: the value is never sent.
pub str-replace :
    (separator key value : Text) (h : Headers)
    → is_listed key h.order ≡ false
    → str separator (replace key value h) ≡ str separator h
unfolding str replace
str-replace separator key value h new =
    rw (blocks-insert separator key (value ∷ []) h.values h.order new) refl
