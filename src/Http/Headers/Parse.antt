-- ===== src/Http/Headers/Parse.antt =====
-- lib/exaproxy/http/headers.py: the lines in `Headers.parse`, and the whole of it with `transparent` set.
use exaproxy.Common.{
  ℕ, ◌+◌, ◌%◌, Bool, false, not, ◌&&◌, ◌||◌, Option, none, some, List, [], ◌∷◌, if◌then◌else◌, leb,
  ◌==◌, number_key,
}
use exaproxy.Dict.{contains}
use exaproxy.Client.Http.{Text, count_quotes, is_empty}
use exaproxy.Util.MessageBox.{split_colon}
use exaproxy.Http.Headers.{Headers, name_key, extend}

-- `text.isspace()` of one byte
abbrev pub is_space : ℕ → Bool
is_space c = c == 32 || (leb 9 c && leb c 13)

abbrev pub is_return : ℕ → Bool
is_return c = c == 13

-- `text.lstrip()`, `text.rstrip()` and `text.strip()`, of the bytes that `drops` names
unfoldable pub lstrip : (ℕ → Bool) → Text → Text
lstrip drops [] = []
lstrip drops (c ∷ cs) = let rest = lstrip drops cs in if drops c then rest else c ∷ cs

unfoldable pub rstrip : (ℕ → Bool) → Text → Text
rstrip drops [] = []
rstrip drops (c ∷ cs) =
    let rest = rstrip drops cs in if is_empty rest && drops c then [] else c ∷ rest

unfoldable pub strip : (ℕ → Bool) → Text → Text
strip drops text = rstrip drops (lstrip drops text)

-- `text.lower()`
unfoldable pub lower : Text → Text
lower [] = []
lower (c ∷ cs) = (if leb 65 c && leb c 90 then c + 32 else c) ∷ lower cs

-- `text[0].isspace()`, of a text that has a byte
abbrev pub starts_with_space : Text → Bool
starts_with_space [] = false
starts_with_space (c ∷ cs) = is_space c

abbrev push : ℕ → List Text → List Text
push c [] = (c ∷ []) ∷ []
push c (line ∷ lines) = (c ∷ line) ∷ lines

-- `lines.split('\n')`
unfoldable pub split_lines : Text → List Text
split_lines [] = [] ∷ []
split_lines (c ∷ cs) = let lines = split_lines cs in if c == 10 then [] ∷ lines else push c lines

abbrev pub is_odd_quoted : Text → Bool
is_odd_quoted line = count_quotes line % 2 == 1

-- After a line, the loop goes on, ends, or raises an InvalidRequest or the ValueError of a line with no colon.
pub data Turn : Type 0 where
  goes_on : Text → Bool → Headers → Turn
  ends : Bool → Headers → Turn
  fails unsplit : Turn

abbrev pub kept : Text → Bool → Option Headers → Turn
kept key quoted none = fails
kept key quoted (some h) = goes_on key quoted h

abbrev pub named : Bool → Text → Headers → Option (Text × Text) → Turn
named quoted line h none = unsplit
named quoted line h (some (name, value)) =
    let key = lower (strip is_space name) in kept key quoted (extend key line h)

unfoldable pub parse_line : Text → Bool → Headers → Text → Turn
parse_line key quoted h line =
    if quoted
    then kept key (not (is_odd_quoted line)) (extend key line h)
    else if is_empty line
    then ends false h
    else if starts_with_space line
    then kept key (is_odd_quoted line) (extend key line h)
    else named (is_odd_quoted line) line h (split_colon line)

unfoldable pub parse_lines : Text → Bool → Headers → List Text → Turn
parse_lines key quoted h [] = ends quoted h
parse_lines key quoted h (line ∷ lines) = elim (parse_line key quoted h (strip is_return line)) [
  | goes_on k q g ↦ parse_lines k q g lines
  | ends q g ↦ ends q g
  | fails ↦ fails
  | unsplit ↦ unsplit
]

-- The headers, or what is raised.
pub data Parsed : Type 0 where
  parsed : Headers → Parsed
  invalid_request value_error expectation_failed : Parsed

abbrev pub checked : Turn → Parsed
checked (goes_on key quoted h) = invalid_request
checked (ends quoted h) =
    if quoted then invalid_request else if contains [] h.values then invalid_request else parsed h
checked fails = invalid_request
checked unsplit = value_error

unfoldable pub parse_transparent : Text → Headers → Parsed
parse_transparent lines h =
    if not (is_empty (strip is_space lines)) && starts_with_space lines
    then invalid_request
    else checked (parse_lines [] false h (split_lines lines))
