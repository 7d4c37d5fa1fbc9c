-- ===== src/Util/MessageBox/Tests.antt =====
-- Runs of util/messagebox.py.
use exaproxy.Common.{◌≡◌, refl, ℕ, ◌∷◌, [], some, none, List, ◌++◌, arith}
use exaproxy.Util.MessageBox.{
  put, read, read_size, read_first, read_digits, split_colon, read_rest, int10,
}
use exaproxy.Util.MessageBox.Body.{some_of}
use exaproxy.Util.MessageBox.RoundTrip.{read-put}

-- A message of twelve bytes.
abbrev pickled : List ℕ
pickled = 40 ∷ 112 ∷ 48 ∷ 10 ∷ 83 ∷ 44 ∷ 58 ∷ 39 ∷ 10 ∷ 112 ∷ 49 ∷ 46 ∷ []

abbrev sizes : List ℕ
sizes = 0 ∷ 1 ∷ 0 ∷ 2 ∷ 1 ∷ 0 ∷ 3 ∷ 0 ∷ 0 ∷ 0 ∷ 0 ∷ 0 ∷ 0 ∷ 9 ∷ 9 ∷ 9 ∷ []

-- A text without a colon is no message, and is taken from the pipe.
without_colon : read (some 2 ∷ []) (97 ∷ 98 ∷ 99 ∷ 100 ∷ []) ≡ some (none, [], 100 ∷ [])
unfolding read read_size read_first read_digits split_colon read_rest int10
without_colon = refl

-- A pipe that ends within a message: the reader asks again until it has no more answers.
ended : read (some 2 ∷ some 0 ∷ some 0 ∷ []) (57 ∷ 58 ∷ 97 ∷ []) ≡ none
unfolding read read_size read_first read_digits split_colon read_rest int10
ended = refl

read-put_example :
    (js : List ℕ) × (read (some_of sizes) (put (49 ∷ 50 ∷ []) pickled ++ 51 ∷ 58 ∷ [])
      ≡ some (some pickled, some_of js, 51 ∷ 58 ∷ []))
unfolding int10
read-put_example = read-put sizes (49 ∷ 50 ∷ []) pickled (51 ∷ 58 ∷ []) refl refl (omega arith)
