-- ===== src/Http/Headers/Forwarded/Filtered.antt =====
-- lib/exaproxy/http/headers.py: the loop of `parse` that removes connections while it goes over a copy of them.
use mathlib.Core.List.{append_assoc}
use exaproxy.Common.{
  ◌≡◌, refl, sym, ap, ◌∙◌, Bool, true, false, ◌&&◌, Option, none, some, List, [], ◌∷◌, ◌++◌,
  if◌then◌else◌, arith, ◌==◌, Bool-cases, inl, inr,
}
use exaproxy.Client.Http.{Text}
use exaproxy.Http.Headers.{name_key, unlist}
use exaproxy.Http.Headers.Forwarded.{line_value, is_connection, connection_loop, connection_as}

abbrev pub passes : Bool → Option Text → Bool
passes upgraded none = false
passes upgraded (some value) = is_connection upgraded value

-- The lines whose value is kept, in their order.
unfoldable pub kept_of : Bool → List Text → List Text
kept_of upgraded [] = []
kept_of upgraded (line ∷ lines) =
    if passes upgraded (line_value line)
    then line ∷ kept_of upgraded lines
    else kept_of upgraded lines

abbrev all_pass : Bool → List Text → Bool
all_pass upgraded [] = true
all_pass upgraded (line ∷ lines) = passes upgraded (line_value line) && all_pass upgraded lines

abbrev is_value : Option Text → Bool
is_value none = false
is_value (some value) = true

-- Every line has a colon.
abbrev pub have_values : List Text → Bool
have_values [] = true
have_values (line ∷ lines) = is_value (line_value line) && have_values lines

-- The first line that is equal to one that does not pass is not among those that do.
unlist-append :
    (upgraded : Bool) (line : Text) (before after : List Text)
    → all_pass upgraded before ≡ true
    → passes upgraded (line_value line) ≡ false
    → unlist line (before ++ line ∷ after) ≡ before ++ after
unfolding unlist
unlist-append upgraded line [] after kept out =
    let same : (line == line) ≡ true = ground (arith, name_key.same_iff line line) in rw same refl
unlist-append upgraded line (b ∷ before) after kept out = elim (Bool-cases (b == line)) [
  | inl same ↦
      let equal : b ≡ line = ground (arith, name_key.same_iff b line) in
      let passes_too : passes upgraded (line_value b) ≡ false =
        ap (λ (t : Text). passes upgraded (line_value t)) equal ∙ out in
      absurd (ground arith)
  | inr other ↦ rw other (ap (◌∷◌ b) (unlist-append upgraded line before after (ground arith) out))
]

all_pass-append :
    (upgraded : Bool) (line : Text) (before : List Text)
    → all_pass upgraded before ≡ true
    → passes upgraded (line_value line) ≡ true
    → all_pass upgraded (before ++ line ∷ []) ≡ true
all_pass-append upgraded line [] kept also = rw also refl
all_pass-append upgraded line (b ∷ before) kept also =
    ground (arith, all_pass-append upgraded line before)

connection_as-pass :
    (upgraded : Bool) (line : Text) (lines : List Text) (o : Option Text)
    → passes upgraded o ≡ true
    → connection_as upgraded line lines o ≡ some lines
connection_as-pass upgraded line lines none passing = absurd cc
connection_as-pass upgraded line lines (some value) passing = rw passing refl

connection_as-drop :
    (upgraded : Bool) (line : Text) (lines : List Text) (o : Option Text)
    → is_value o ≡ true
    → passes upgraded o ≡ false
    → connection_as upgraded line lines o ≡ some (unlist line lines)
connection_as-drop upgraded line lines none colon failing = absurd cc
connection_as-drop upgraded line lines (some value) colon failing = rw failing refl

loop_lem :
    (upgraded : Bool) (before copy : List Text)
    → all_pass upgraded before ≡ true
    → have_values copy ≡ true
    → connection_loop upgraded copy (before ++ copy) ≡ some (before ++ kept_of upgraded copy)
unfolding connection_loop kept_of
loop_lem upgraded before [] kept colons = refl
loop_lem upgraded before (line ∷ copy) kept colons =
    let colon : is_value (line_value line) ≡ true = grind arith in
    let others : have_values copy ≡ true = grind arith in
    elim (Bool-cases (passes upgraded (line_value line))) [
      | inl passing ↦
          let turn : connection_as upgraded line (before ++ line ∷ copy) (line_value line)
              ≡ some (before ++ line ∷ copy) =
            connection_as-pass upgraded line (before ++ line ∷ copy) (line_value line) passing in
          let left : (before ++ line ∷ []) ++ copy ≡ before ++ line ∷ copy =
            append_assoc before (line ∷ []) copy in
          let right : (before ++ line ∷ []) ++ kept_of upgraded copy
              ≡ before ++ line ∷ kept_of upgraded copy =
            append_assoc before (line ∷ []) (kept_of upgraded copy) in
          let rest =
            loop_lem upgraded (before ++ line ∷ []) copy
              (all_pass-append upgraded line before kept passing) others in
          rw passing (
            rw (turn, connection_loop)
              (ap (connection_loop upgraded copy) (sym left)
                ∙ rest
                ∙ ap (λ (t : List Text). some t) right))
      | inr failing ↦
          let turn : connection_as upgraded line (before ++ line ∷ copy) (line_value line)
              ≡ some (unlist line (before ++ line ∷ copy)) =
            connection_as-drop upgraded line (before ++ line ∷ copy) (line_value line) colon
              failing in
          rw failing (
            rw (turn, connection_loop)
              (ap (connection_loop upgraded copy)
                  (unlist-append upgraded line before copy kept failing)
                ∙ loop_lem upgraded before copy kept others))
    ]

-- Removing from the list the connections of its copy that are not kept leaves those that are, in their order,
-- where each line has a colon.
pub connection_loop-kept_of :
    (upgraded : Bool) (connections : List Text)
    → have_values connections ≡ true
    → connection_loop upgraded connections connections ≡ some (kept_of upgraded connections)
connection_loop-kept_of upgraded connections colons = loop_lem upgraded [] connections refl colons
