-- ===== src/Http/Headers/Tests.antt =====
-- Runs of http/headers.py.
use exaproxy.Common.{List, true, false, ◌++◌, ◌≡◌, refl, ◌∷◌, [], some}
use exaproxy.Client.Http.{Text, quotes, escaped, count_quotes, starts_with}
use exaproxy.Dict.{remove, lookup, insert, contains}
use exaproxy.Util.MessageBox.{split_colon}
use exaproxy.Http.Headers.{pop, unlist, Headers, create, extend, str, replace, name_key}
use exaproxy.Http.Headers.Parse.{
  parse_transparent, parsed, parse_lines, parse_line, strip, lstrip, rstrip, lower, split_lines,
  value_error,
}
use exaproxy.Http.Headers.Listed.{IsListed}
use exaproxy.Http.Headers.Forwarded.{
  connection_name, parse_forwarded, forwarded, drop_hop_headers, upgrade_loop, connection_loop, get,
  line_value, is_connection, pop_if_empty, write_through,
}
use exaproxy.Http.Headers.Forwarded.Filtered.{connection_loop-kept_of, kept_of}
use exaproxy.Http.Headers.Kept.{parse-str}
use exaproxy.Http.Headers.Printed.{str-replace}

-- `A: 1`, with a second line of it, and `B:"x"`
abbrev lines : Text
lines =
    65 ∷ 58 ∷ 49 ∷ 13 ∷ 10 ∷ 32 ∷ 50 ∷ 13 ∷ 10 ∷ 66 ∷ 58 ∷ 34 ∷ 120 ∷ 34 ∷ 13 ∷ 10 ∷ 13 ∷ 10 ∷ []

abbrev headers : Headers
headers = record {
  order = (97 ∷ []) ∷ (98 ∷ []) ∷ [];
  values =
      (97 ∷ [], (65 ∷ 58 ∷ 49 ∷ []) ∷ (32 ∷ 50 ∷ []) ∷ [])
      ∷ (98 ∷ [], (66 ∷ 58 ∷ 34 ∷ 120 ∷ 34 ∷ []) ∷ [])
      ∷ [];
}

read_lines : parse_transparent lines create ≡ parsed headers
unfolding parse_transparent parse_lines parse_line create extend lookup insert contains strip lstrip
    rstrip lower split_lines split_colon count_quotes quotes escaped starts_with
read_lines = refl

-- A line without a colon
no_colon : parse_transparent (65 ∷ 49 ∷ []) create ≡ value_error
unfolding parse_transparent parse_lines parse_line create extend lookup insert contains strip lstrip
    rstrip lower split_lines split_colon count_quotes quotes escaped starts_with
no_colon = refl

parse-str_example : IsListed headers × ((text : Text) × (str (13 ∷ 10 ∷ []) headers ≡ some text))
parse-str_example = parse-str lines (13 ∷ 10 ∷ []) headers read_lines

str-replace_example :
    str (13 ∷ 10 ∷ []) (replace (120 ∷ []) (120 ∷ 58 ∷ 49 ∷ []) headers)
    ≡ str (13 ∷ 10 ∷ []) headers
str-replace_example = str-replace (13 ∷ 10 ∷ []) (120 ∷ []) (120 ∷ 58 ∷ 49 ∷ []) headers refl

-- A connection that is not kept is taken out, and its header with it.
taken_out :
    parse_forwarded (49 ∷ 46 ∷ 49 ∷ []) true (connection_name ++ 58 ∷ 120 ∷ 10 ∷ []) create
    ≡ parsed create
unfolding parse_forwarded forwarded drop_hop_headers upgrade_loop connection_loop get line_value
    is_connection pop_if_empty write_through pop unlist remove parse_lines parse_line create extend
    lookup insert contains strip lstrip rstrip lower split_lines split_colon count_quotes quotes
    escaped starts_with
taken_out = refl

-- A close, and a token that is not kept.
abbrev two_connections : List Text
two_connections = (120 ∷ 58 ∷ 32 ∷ 67 ∷ 108 ∷ 111 ∷ 115 ∷ 101 ∷ []) ∷ (120 ∷ 58 ∷ 121 ∷ []) ∷ []

connection_loop-kept_of_example :
    connection_loop false two_connections two_connections ≡ some (kept_of false two_connections)
unfolding line_value split_colon strip lstrip rstrip lower
connection_loop-kept_of_example = connection_loop-kept_of false two_connections refl
