-- ===== src/Client/Http.antt =====
-- lib/exaproxy/reactor/client/http.py, class `HTTPClient`: how the requests and the bodies of a client
-- are told apart in what it sends. A text is its list of bytes; what `recv` gives is an argument.
-- `len(r_buffer)` bounds the loop over chunks, which takes at least a line feed each time.
pub mod Respond
pub mod Search
pub mod Chunks
pub mod Relay
mod Tests
use exaproxy.Common.{
  ℕ, zero, suc, ◌+◌, ◌-◌, ◌*◌, ◌%◌, min, Bool, true, false, not, ◌&&◌, ◌||◌, Option, none, some,
  List, [], ◌∷◌, ◌++◌, if◌then◌else◌, length, take, drop, ltb, leb, number_key, ◌==◌,
}

abbrev pub Text : Type 0
Text = List ℕ

abbrev pub is_empty : Text → Bool
is_empty [] = true
is_empty (x ∷ xs) = false

unfoldable pub starts_with : Text → Text → Bool
starts_with [] text = true
starts_with (p ∷ ps) [] = false
starts_with (p ∷ ps) (x ∷ xs) = let rest = starts_with ps xs in if p == x then rest else false

-- `str.find` of a text that is not empty
unfoldable pub find : Text → Text → Option ℕ
find sub [] = none
find sub (x ∷ xs) =
    let rest = find sub xs in
    if starts_with sub (x ∷ xs) then some 0 else elim rest [ none ↦ none | some n ↦ some (suc n) ]

unfoldable pub is_hex_digit : ℕ → Bool
is_hex_digit c = (leb 48 c && leb c 57) || (leb 97 c && leb c 102) || (leb 65 c && leb c 70)

abbrev pub all_hex : Text → Bool
all_hex [] = true
all_hex (c ∷ cs) = is_hex_digit c && all_hex cs

unfoldable pub is_hex : Text → Bool
is_hex s = not (is_empty s) && all_hex s

-- `int(s, 16)`, with the value of the digits before
unfoldable pub hex_digit : ℕ → ℕ
hex_digit c = if leb c 57 then c - 48 else if leb c 70 then c - 55 else c - 87

unfoldable pub int16 : ℕ → Text → ℕ
int16 n [] = n
int16 n (c ∷ cs) = int16 (n * 16 + hex_digit c) cs

-- `data.count('"')` and `data.count('\\"')`
unfoldable pub quotes : Text → ℕ
quotes [] = 0
quotes (x ∷ xs) = (if x == 34 then 1 else 0) + quotes xs

unfoldable pub escaped : Text → ℕ
escaped [] = 0
escaped (x ∷ xs) = (if x == 92 && starts_with (34 ∷ []) xs then 1 else 0) + escaped xs

unfoldable pub count_quotes : Text → ℕ
count_quotes text = quotes text - escaped text

abbrev pub eor : List Text
eor = (13 ∷ 10 ∷ 13 ∷ 10 ∷ []) ∷ (10 ∷ 10 ∷ []) ∷ []

-- The loop of `checkRequest` over the separators: a request and what follows it, or where to seek
-- from next.
pub data Looked : Type 0 where
  found : Text → Text → ℕ → Looked
  not_found : ℕ → Looked

unfoldable pub look : List Text → Text → ℕ → Looked
look [] r_buffer seek = not_found seek
look (sep ∷ seps) r_buffer seek =
    let next : ℕ → Looked = λ s. look seps r_buffer s in
    elim (find sep (drop seek r_buffer)) [
      | none ↦ next seek
      | some pos ↦
          if is_empty (take (seek + pos) r_buffer)
          then next seek
          else if count_quotes (take (seek + pos) r_buffer) % 2 == 0
          then (found (take (seek + pos) r_buffer ++ sep) (drop (seek + pos + length sep) r_buffer)
              seek)
          else next (seek + pos + length sep)
    ]

-- None, no request yet, or a request
pub data Checked : Type 0 where
  too_long : Checked
  unfinished : ℕ → Checked
  request : Text → Text → ℕ → Checked

abbrev pub checked : Text → ℕ → Looked → Checked
checked r_buffer size (found text rest s) = request text rest s
checked r_buffer size (not_found s) =
    if not (size == 0) && ltb size (length r_buffer) then too_long else unfinished s

unfoldable pub check_request : Text → ℕ → ℕ → Checked
check_request r_buffer size seek = checked r_buffer size (look eor r_buffer seek)

-- `split(c, 1)`: what stands before the first `c`, and after it
unfoldable pub split : ℕ → Text → Option (Text × Text)
split c [] = none
split c (x ∷ xs) =
    let rest = split c xs in
    if x == c then some ([], xs) else elim rest [ none ↦ none | some (a, b) ↦ some (x ∷ a, b) ]

-- A header without its final carriage return, and the length of the end of line that it had.
unfoldable pub chomp : Text → Text × ℕ
chomp [] = ([], 1)
chomp (x ∷ []) = if x == 13 then ([], 2) else (x ∷ [], 1)
chomp (x ∷ y ∷ xs) = let (text, len_eol) = chomp (y ∷ xs) in (x ∷ text, len_eol)

-- `header.split(';', 1)[0]` where there is one
abbrev pub bare : Text → Text
bare header = elim (split 59 header) [ none ↦ header | some (before, after) ↦ before ]

-- `checkChunkSize`: is there more to come, and the length of the chunks; `none` is not decodable. A turn
-- of its loop, once the header was read; `next` is the loop with the new length and what follows.
abbrev pub chunk_turn : ℕ → ℕ → Text → ℕ → Text → (ℕ → Text → Bool × Option ℕ) → Bool × Option ℕ
chunk_turn total_len len_header header len_eol rest next =
    let len_chunk = int16 0 header in
    if not (is_hex header)
    then (true, none)
    else if ltb 0x100000 len_chunk
    then (true, none)
    else if len_chunk == 0
    then (false, some (total_len + len_header))
    else next (total_len + (len_chunk + len_eol + len_header)) (drop (len_chunk + len_eol) rest)

abbrev pub chunk_line : ℕ → Text → Text → (ℕ → Text → Bool × Option ℕ) → Bool × Option ℕ
chunk_line total_len line rest next =
    let (header, len_eol) = chomp line in
    chunk_turn total_len (length line + 1) (bare header) len_eol rest next

unfoldable pub check_chunks : ℕ → ℕ → Text → Bool × Option ℕ
check_chunks zero total_len r_buffer = (true, some total_len)
check_chunks (suc fuel) total_len [] = (true, some total_len)
check_chunks (suc fuel) total_len (x ∷ xs) =
    let next : ℕ → Text → Bool × Option ℕ = λ total text. check_chunks fuel total text in
    elim (split 10 (x ∷ xs)) [
      | none ↦ if ltb 6 (length (x ∷ xs)) then (true, none) else (true, some 0)
      | some (line, rest) ↦ chunk_line total_len line rest next
    ]

unfoldable pub check_chunk_size : Text → Bool × Option ℕ
check_chunk_size r_buffer = check_chunks (length r_buffer) 0 r_buffer
