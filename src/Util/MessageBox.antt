-- ===== src/Util/MessageBox.antt =====
-- lib/exaproxy/util/messagebox.py: how a message is framed on a pipe (`MessageBox.put`), and read back
-- (`MessageReader.read`). A text is a list of bytes, 58 is the colon and 44 the comma. A message is what
-- `pickle` makes of it, and the digits of its length are an argument of `put`. A pipe is the bytes that are
-- to come, with one answer for each call of `read`: `none` for an IOError, `some k` for k + 1 bytes, or as
-- many as are asked for and there. An empty answer list is a reader that waits.
pub mod Body
pub mod Size
pub mod RoundTrip
mod Tests
use exaproxy.Common.{
  ℕ, zero, suc, ◌+◌, ◌-◌, ◌*◌, Bool, true, false, not, ◌&&◌, Option, none, some, List, [], ◌∷◌,
  ◌++◌, if◌then◌else◌, length, take, drop, leb, mem, min, number_key, ◌==◌,
}

abbrev pub Bytes : Type 0
Bytes = List ℕ

abbrev pub Answers : Type 0
Answers = List (Option ℕ)

-- What is read, with the answers and the bytes that are left.
abbrev pub Reading : Type 0
Reading = Bytes × Answers × Bytes

-- `str(len(pickled)) + self.delimiter + str(pickled) + self.eom`
unfoldable pub put : Bytes → Bytes → Bytes
put digits pickled = digits ++ 58 ∷ (pickled ++ 44 ∷ [])

abbrev pub all_digits : Bytes → Bool
all_digits [] = true
all_digits (c ∷ cs) = (leb 48 c && leb c 57) && all_digits cs

-- `text.isdigit()`
abbrev pub is_digit : Bytes → Bool
is_digit [] = false
is_digit (c ∷ cs) = all_digits (c ∷ cs)

-- `int(text)`, with the value of the digits before
unfoldable pub int10 : ℕ → Bytes → ℕ
int10 n [] = n
int10 n (c ∷ cs) = int10 (n * 10 + (c - 48)) cs

-- `pipe_in.read(3)`, until it does not raise
unfoldable pub read_first : Answers → Bytes → Option Reading
read_first [] stream = none
read_first (none ∷ answers) stream = read_first answers stream
read_first (some k ∷ answers) stream =
    some (take (min 3 (suc k)) stream, answers, drop (min 3 (suc k)) stream)

-- `while message_s.isdigit()`: one byte more, where a pipe that has ended gives none.
unfoldable pub read_digits : Answers → Bytes → Bytes → Option Reading
read_digits [] text stream = if is_digit text then none else some (text, [], stream)
read_digits (none ∷ answers) text stream =
    let again = read_digits answers text stream in
    if is_digit text then again else some (text, none ∷ answers, stream)
read_digits (some k ∷ answers) text stream =
    let again = read_digits answers (text ++ take 1 stream) (drop 1 stream) in
    if is_digit text then again else some (text, some k ∷ answers, stream)

-- `while remaining > 0`. An IOError leaves the method, for which the result is `none` as well.
unfoldable pub read_rest : Answers → ℕ → Bytes → Bytes → Option Reading
read_rest answers zero text stream = some (text, answers, stream)
read_rest [] (suc n) text stream = none
read_rest (none ∷ answers) (suc n) text stream = none
read_rest (some k ∷ answers) (suc n) text stream =
    let m = min (suc n) (suc k) in
    read_rest answers (suc n - length (take m stream)) (text ++ take m stream) (drop m stream)

-- `message_s.split(':', 1)`
unfoldable pub split_colon : Bytes → Option (Bytes × Bytes)
split_colon [] = none
split_colon (c ∷ cs) =
    let rest = split_colon cs in
    if c == 58 then some ([], cs) else elim rest [ none ↦ none | some p ↦ some (c ∷ p.0, p.1) ]

-- `pickled[:-1]` where the text ends with a comma
unfoldable pub without_eom : Bytes → Option Bytes
without_eom [] = none
without_eom (c ∷ []) = if c == 44 then some [] else none
without_eom (c ∷ d ∷ cs) =
    let rest = without_eom (d ∷ cs) in elim rest [ none ↦ none | some text ↦ some (c ∷ text) ]

-- What `read` returns, None or a message, with what is left of the pipe.
abbrev pub Outcome : Type 0
Outcome = Option (Option Bytes × Answers × Bytes)

abbrev ending : Option Reading → Outcome
ending none = none
ending (some (text, answers, stream)) = some (without_eom text, answers, stream)

abbrev sized : Answers → Bytes → Bytes × Bytes → Outcome
sized answers stream (size, pickled) =
    if is_digit size
    then ending (read_rest answers (int10 0 size + 1 - length pickled) pickled stream)
    else some (none, answers, stream)

abbrev framed : Reading → Outcome
framed (text, answers, stream) = elim (split_colon text) [
  | none ↦ some (none, answers, stream)
  | some parts ↦ sized answers stream parts
]

abbrev with_digits : Reading → Option Reading
with_digits (text, answers, stream) = read_digits answers text stream

-- The first of the two loops and the second: the size, its colon, and at times some of the message.
unfoldable pub read_size : Answers → Bytes → Option Reading
read_size answers stream = elim (read_first answers stream) [
  | none ↦ none
  | some reading ↦ with_digits reading
]

unfoldable pub read : Answers → Bytes → Outcome
read answers stream = elim (read_size answers stream) [
  | none ↦ none
  | some reading ↦ framed reading
]
