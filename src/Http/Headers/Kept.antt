-- ===== src/Http/Headers/Kept.antt =====
-- lib/exaproxy/http/headers.py: what `parse` gives agrees, and can be printed.
use exaproxy.Common.{
  ◌≡◌, refl, sym, ◌∙◌, subst, Bool, true, false, Option, none, some, List, [], ◌∷◌, if◌then◌else◌,
  arith, Bool-cases, inl, inr, not, ◌&&◌,
}
use exaproxy.Dict.{contains}
use exaproxy.Client.Http.{Text, is_empty}
use exaproxy.Util.MessageBox.{split_colon}
use exaproxy.Http.Headers.{Headers, create, extend, str, name_key}
use exaproxy.Http.Headers.Parse.{
  Turn, goes_on, ends, fails, unsplit, kept, named, parse_line, parse_lines, Parsed, parsed,
  invalid_request, parse_transparent, checked, starts_with_space, is_odd_quoted, strip, lower,
  is_space, is_return, split_lines,
}
use exaproxy.Http.Headers.Listed.{IsListed, create-IsListed, extend-IsListed}
use exaproxy.Http.Headers.Printed.{str-IsListed}

-- A turn that leaves headers that agree, or the ValueError of a line without a colon; never a KeyError.
unfoldable pub TurnsListed : Turn → Type 0
TurnsListed (goes_on key quoted h) = IsListed h
TurnsListed (ends quoted h) = IsListed h
TurnsListed fails = ⊥
TurnsListed unsplit = Unit

kept-TurnsListed :
    (key name line : Text) (quoted : Bool) (h : Headers)
    → IsListed h
    → TurnsListed (kept key quoted (extend name line h))
unfolding TurnsListed
kept-TurnsListed key name line quoted h listed =
    let (g, went, after) = extend-IsListed name line h listed in
    subst (λ (o : Option Headers). TurnsListed (kept key quoted o)) (sym went) after

named-TurnsListed :
    (quoted : Bool) (line : Text) (h : Headers) (o : Option (Text × Text))
    → IsListed h
    → TurnsListed (named quoted line h o)
unfolding TurnsListed
named-TurnsListed quoted line h none listed = tt
named-TurnsListed quoted line h (some (name, value)) listed =
    let key = lower (strip is_space name) in kept-TurnsListed key key line quoted h listed

parse_line-TurnsListed :
    (key line : Text) (quoted : Bool) (h : Headers)
    → IsListed h
    → TurnsListed (parse_line key quoted h line)
unfolding parse_line TurnsListed
parse_line-TurnsListed key line true h listed =
    kept-TurnsListed key key line (not (is_odd_quoted line)) h listed
parse_line-TurnsListed key line false h listed = elim (Bool-cases (is_empty line)) [
  | inl empty ↦ rw empty listed
  | inr filled ↦ rw filled (elim (Bool-cases (starts_with_space line)) [
    | inl folded ↦ rw folded (kept-TurnsListed key key line (is_odd_quoted line) h listed)
    | inr plain ↦ rw plain (named-TurnsListed (is_odd_quoted line) line h (split_colon line) listed)
  ])
]

turn_lem :
    (lines : List Text) (turn : Turn)
    → TurnsListed turn
    → ((k : Text) (q : Bool) (g : Headers) → IsListed g → TurnsListed (parse_lines k q g lines))
    → TurnsListed (elim turn [
      | goes_on k q g ↦ parse_lines k q g lines
      | ends q g ↦ ends q g
      | fails ↦ fails
      | unsplit ↦ unsplit
    ])
unfolding TurnsListed
turn_lem lines (goes_on k q g) listed next = next k q g listed
turn_lem lines (ends q g) listed next = listed
turn_lem lines fails listed next = listed
turn_lem lines unsplit listed next = tt

-- The loop, from headers that agree, raises no KeyError and leaves headers that agree.
pub parse_lines-TurnsListed :
    (key : Text) (quoted : Bool) (h : Headers) (lines : List Text)
    → IsListed h
    → TurnsListed (parse_lines key quoted h lines)
unfolding parse_lines
parse_lines-TurnsListed key quoted h [] listed = unfold TurnsListed in listed
parse_lines-TurnsListed key quoted h (line ∷ lines) listed =
    turn_lem lines (parse_line key quoted h (strip is_return line))
      (parse_line-TurnsListed key (strip is_return line) quoted h listed)
      (λ k q g after. parse_lines-TurnsListed k q g lines after)

parsed_inj : (g h : Headers) → parsed g ≡ parsed h → g ≡ h
parsed_inj g h same = cc

unguarded :
    (b : Bool) (p : Parsed) (h : Headers)
    → (if b then invalid_request else p) ≡ parsed h
    → p ≡ parsed h
unguarded true p h done = absurd (cc)
unguarded false p h done = done

checked-IsListed :
    (turn : Turn) (h : Headers) → TurnsListed turn → checked turn ≡ parsed h → IsListed h
unfolding TurnsListed
checked-IsListed (goes_on key quoted g) h listed done = absurd (cc)
checked-IsListed (ends true g) h listed done = absurd (cc)
checked-IsListed (ends false g) h listed done = elim (Bool-cases (contains [] g.values)) [
  | inl unnamed ↦ absurd (ground arith)
  | inr other ↦
      let same : parsed g ≡ parsed h = sym (rw other refl) ∙ done in
      subst IsListed (parsed_inj g h same) listed
]
checked-IsListed fails h listed done = absurd listed
checked-IsListed unsplit h listed done = absurd (cc)

-- Headers that `parse` gives where it takes none out can be printed: their names are listed once each, and each
-- of them has its values.
pub parse-str :
    (lines separator : Text) (h : Headers)
    → parse_transparent lines create ≡ parsed h
    → IsListed h × ((text : Text) × (str separator h ≡ some text))
unfolding parse_transparent
parse-str lines separator h done =
    let listed : IsListed h =
      checked-IsListed (parse_lines [] false create (split_lines lines)) h
        (parse_lines-TurnsListed [] false create (split_lines lines) create-IsListed)
        (unguarded (not (is_empty (strip is_space lines)) && starts_with_space lines)
          (checked (parse_lines [] false create (split_lines lines))) h done) in
    (listed, str-IsListed separator h listed)
