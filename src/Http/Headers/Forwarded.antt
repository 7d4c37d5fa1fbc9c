-- ===== src/Http/Headers/Forwarded.antt =====
-- lib/exaproxy/http/headers.py: what `Headers.parse` takes out where it is not transparent. The list of the
-- upgrades is the one in the dictionary as long as that name is there, so that a removal is written through.
pub mod Filtered
use exaproxy.Common.{
  Bool, true, false, not, ◌&&◌, ◌||◌, Option, none, some, List, [], ◌∷◌, if◌then◌else◌, ◌==◌,
  number_key, ℕ,
}
use exaproxy.Dict.{lookup, insert, contains}
use exaproxy.Client.Http.{Text, is_empty, starts_with}
use exaproxy.Util.MessageBox.{split_colon}
use exaproxy.Http.Headers.{Headers, name_key, unlist, Popped, popped, missing, unlisted, pop}
use exaproxy.Http.Headers.Parse.{
  Parsed, parsed, invalid_request, value_error, expectation_failed, is_space, strip, lower, Turn,
  goes_on, ends, fails, unsplit, parse_lines, split_lines, starts_with_space,
}

-- The names and the values that the code compares with
abbrev pub upgrade_name : Text
upgrade_name = 117 ∷ 112 ∷ 103 ∷ 114 ∷ 97 ∷ 100 ∷ 101 ∷ []

abbrev pub connection_name : Text
connection_name = 99 ∷ 111 ∷ 110 ∷ 110 ∷ 101 ∷ 99 ∷ 116 ∷ 105 ∷ 111 ∷ 110 ∷ []

abbrev pub keep_alive_name : Text
keep_alive_name = 107 ∷ 101 ∷ 101 ∷ 112 ∷ 45 ∷ 97 ∷ 108 ∷ 105 ∷ 118 ∷ 101 ∷ []

abbrev pub expect_name : Text
expect_name = 101 ∷ 120 ∷ 112 ∷ 101 ∷ 99 ∷ 116 ∷ []

abbrev pub close_value : Text
close_value = 99 ∷ 108 ∷ 111 ∷ 115 ∷ 101 ∷ []

abbrev pub websocket_value : Text
websocket_value = 119 ∷ 101 ∷ 98 ∷ 115 ∷ 111 ∷ 99 ∷ 107 ∷ 101 ∷ 116 ∷ []

abbrev pub tls_prefix : Text
tls_prefix = 116 ∷ 108 ∷ 115 ∷ 47 ∷ []

-- `line.split(':', 1)[1].strip().lower()`, where `none` is the ValueError of a line without a colon
abbrev value_of : Option (Text × Text) → Option Text
value_of none = none
value_of (some (name, value)) = some (lower (strip is_space value))

unfoldable pub line_value : Text → Option Text
line_value line = value_of (split_colon line)

-- `value == 'websocket' or value.startswith('tls/')`
unfoldable pub is_upgrade : Text → Bool
is_upgrade value = value == websocket_value || starts_with tls_prefix value

-- `lines.remove(line)` for the list `self._data[key]`
unfoldable pub write_through : Text → List Text → Headers → Headers
write_through key lines h =
    if contains key h.values then record h { values = insert key lines h.values } else h

abbrev pub without_pop : Popped → Option Headers
without_pop (popped lines h) = some h
without_pop (missing h) = some h
without_pop (unlisted h) = none

abbrev is_some_lines : List Text → Bool
is_some_lines [] = false
is_some_lines (line ∷ lines) = true

-- `self.pop(key)` where the list is empty
unfoldable pub pop_if_empty : Text → List Text → Headers → Option Headers
pop_if_empty key lines h = if is_some_lines lines then some h else without_pop (pop key h)

-- One upgrade of the copy: the list after it, and the headers. `none` is a ValueError.
unfoldable pub upgrade_turn : Text → List Text → Headers → Option (List Text × Headers)
upgrade_turn upgrade upgrades h = elim (line_value upgrade) [
  | none ↦ none
  | some value ↦
      if is_upgrade value
      then some (upgrades, h)
      else elim (without_pop (pop value (write_through upgrade_name (unlist upgrade upgrades) h))) [
        | none ↦ none
        | some g ↦ some (unlist upgrade upgrades, g)
      ]
]

unfoldable pub upgrade_loop : List Text → List Text → Headers → Option (List Text × Headers)
upgrade_loop [] upgrades h = some (upgrades, h)
upgrade_loop (upgrade ∷ copy) upgrades h = elim (upgrade_turn upgrade upgrades h) [
  | none ↦ none
  | some state ↦ upgrade_loop copy state.0 state.1
]

-- A connection that is kept: a close, or an upgrade where one is left.
unfoldable pub is_connection : Bool → Text → Bool
is_connection upgraded value = value == close_value || (value == upgrade_name && upgraded)

abbrev pub connection_as : Bool → Text → List Text → Option Text → Option (List Text)
connection_as upgraded connection connections none = none
connection_as upgraded connection connections (some value) =
    some (if is_connection upgraded value then connections else unlist connection connections)

unfoldable pub connection_loop : Bool → List Text → List Text → Option (List Text)
connection_loop upgraded [] connections = some connections
connection_loop upgraded (connection ∷ copy) connections =
    elim (connection_as upgraded connection connections (line_value connection)) [
      | none ↦ none
      | some others ↦ connection_loop upgraded copy others
    ]

-- `self.get(key, [])`
unfoldable pub get : Text → Headers → List Text
get key h = elim (lookup key h.values) [ none ↦ [] | some lines ↦ lines ]

abbrev pub drop_connections : Option (List Text × Headers) → Option Headers
drop_connections none = none
drop_connections (some (upgrades, h)) = elim (pop_if_empty upgrade_name upgrades h) [
  | none ↦ none
  | some g ↦
      elim (connection_loop (is_some_lines upgrades) (get connection_name g)
        (get connection_name g)) [
          | none ↦ none
          | some lines ↦ pop_if_empty connection_name lines (write_through connection_name lines g)
        ]
]

-- The rules for version 1.1
unfoldable pub drop_hop_headers : Headers → Option Headers
drop_hop_headers h = drop_connections (upgrade_loop (get upgrade_name h) (get upgrade_name h) h)

-- The rule for version 1.0, and the refusal of an expectation
abbrev pub accepted : Bool → Option Headers → Parsed
accepted expect none = value_error
accepted expect (some h) =
    if is_some_lines (get expect_name h) && expect
    then expectation_failed
    else if contains [] h.values
    then invalid_request
    else parsed h

unfoldable pub forwarded : Text → Bool → Headers → Parsed
forwarded http_version expect h =
    if http_version == 49 ∷ 46 ∷ 49 ∷ []
    then accepted expect (drop_hop_headers h)
    else if http_version == 49 ∷ 46 ∷ 48 ∷ []
    then accepted expect (without_pop (pop keep_alive_name h))
    else accepted expect (some h)

abbrev ended : Text → Bool → Turn → Parsed
ended http_version expect (goes_on key quoted h) = invalid_request
ended http_version expect (ends quoted h) =
    if quoted then invalid_request else forwarded http_version expect h
ended http_version expect fails = invalid_request
ended http_version expect unsplit = value_error

-- `parse` where it is not transparent
unfoldable pub parse_forwarded : Text → Bool → Text → Headers → Parsed
parse_forwarded http_version expect lines h =
    if not (is_empty (strip is_space lines)) && starts_with_space lines
    then invalid_request
    else ended http_version expect (parse_lines [] false h (split_lines lines))
