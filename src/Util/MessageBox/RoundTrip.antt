-- ===== src/Util/MessageBox/RoundTrip.antt =====
-- lib/exaproxy/util/messagebox.py: a message that was put on a pipe is read back, however the pipe cuts it.
use mathlib.Core.List.{append_assoc}
use exaproxy.Common.{
  ℕ, ◌+◌, ◌-◌, ◌≤◌, ◌≡◌, refl, ap, ◌∙◌, true, Option, some, List, [], ◌∷◌, ◌++◌, length, take, drop,
  arith, length-append, length-take, length-drop, take-append-drop,
}
use exaproxy.Util.MessageBox.{
  Bytes, Answers, Reading, put, is_digit, int10, read_rest, split_colon, ending, framed, read,
  read_size,
}
use exaproxy.Util.MessageBox.Body.{some_of, read_rest_lem}
use exaproxy.Util.MessageBox.Size.{
  Found, read_size_lem, split_colon_lem, without_eom_lem, is_digit_all,
}

read-framed :
    (answers : Answers) (stream : Bytes) (reading : Reading)
    → read_size answers stream ≡ some reading
    → read answers stream ≡ framed reading
unfolding read
read-framed answers stream reading found = rw (found, read) refl

framed-ending :
    (text : Bytes) (answers : Answers) (stream digits p : Bytes)
    → split_colon text ≡ some (digits, p)
    → is_digit digits ≡ true
    → framed (text, answers, stream)
      ≡ ending (read_rest answers (int10 0 digits + 1 - length p) p stream)
framed-ending text answers stream digits p split are_digits =
    rw (split, framed) (rw are_digits refl)

framed_lem :
    (js : List ℕ) (i : ℕ) (digits pickled rest : Bytes)
    → is_digit digits ≡ true
    → int10 0 digits ≡ length pickled
    → i ≤ 1
    → length pickled + 1 ≤ length js
    → (ls : List ℕ) × (framed (
      digits ++ 58 ∷ take i (pickled ++ 44 ∷ []),
      some_of js,
      drop i (pickled ++ 44 ∷ []) ++ rest,
    )
        ≡ some (some pickled, some_of ls, rest))
framed_lem js i digits pickled rest are_digits size few enough =
    let body = pickled ++ 44 ∷ [] in
    let long : length body ≡ length pickled + 1 = length-append pickled (44 ∷ []) in
    let held : length (take i body) ≡ i = length-take i body (omega (arith, long)) in
    let left : int10 0 digits + 1 - length (take i body) ≡ length (drop i body) =
      omega (arith, size, held, long, length-drop i body) in
    let (ls, went) =
      read_rest_lem js (int10 0 digits + 1 - length (take i body)) (take i body) (drop i body) rest
        left (omega (arith, size, long)) in
    (
      ls,
      framed-ending (digits ++ 58 ∷ take i body) (some_of js) (drop i body ++ rest) digits
            (take i body) (split_colon_lem digits (take i body) (is_digit_all digits are_digits))
            are_digits
          ∙ ap ending
              (went ∙ ap (λ (t : Bytes). some (t, some_of ls, rest)) (take-append-drop i body))
          ∙ ap (λ (t : Option Bytes). some (t, some_of ls, rest)) (without_eom_lem pickled),
    )

-- A message that is put on a pipe, under the digits of its length, is read back whole, and nothing of what follows it
-- is taken, however many bytes each call gives, where no call fails and there are as many calls as the frame has bytes.
pub read-put :
    (ks : List ℕ) (digits pickled rest : Bytes)
    → is_digit digits ≡ true
    → int10 0 digits ≡ length pickled
    → length digits + length pickled + 2 ≤ length ks
    → (js : List ℕ) × (read (some_of ks) (put digits pickled ++ rest)
        ≡ some (some pickled, some_of js, rest))
unfolding read put Found
read-put ks digits pickled rest are_digits size enough =
    let body = pickled ++ 44 ∷ [] in
    let long : length body ≡ length pickled + 1 = length-append pickled (44 ∷ []) in
    let (i, js, few, left, found) =
      read_size_lem ks digits body rest are_digits (omega (arith, long)) (omega (arith, long)) in
    let (ls, went) =
      framed_lem js i digits pickled rest are_digits size few (omega (arith, long)) in
    let shifted : (digits ++ 58 ∷ body) ++ rest ≡ digits ++ 58 ∷ (body ++ rest) =
      append_assoc digits (58 ∷ body) rest in
    (
      ls,
      ap (read (some_of ks)) shifted
          ∙ read-framed (some_of ks) (digits ++ 58 ∷ (body ++ rest))
              (digits ++ 58 ∷ take i body, some_of js, drop i body ++ rest) found
          ∙ went,
    )
