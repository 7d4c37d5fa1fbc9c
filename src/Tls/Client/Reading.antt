-- ===== src/Tls/Client/Reading.antt =====
-- A hello that comes in pieces.
use exaproxy.Common.{
  ℕ, ◌≤◌, ◌<◌, ◌≡◌, ◌∙◌, ap, sym, subst, inl, inr, Bool, true, false, some, List, [], ◌∷◌, ◌++◌,
  length, leb, number_key, arith, Bool-cases, take-append-drop, length-take,
}
use mathlib.Core.List.{append_assoc, append-nil}
use exaproxy.Tls.Hello.{Bytes, tls_header_len, get_tls_hello_size}
use exaproxy.Tls.Client.{check_request, Outcome, closed, pending, greeted, read_hello, with_size}

abbrev pub all_of : List Bytes → Bytes
all_of [] = []
all_of (r ∷ rs) = r ++ all_of rs

abbrev pub none_empty : List Bytes → Bool
none_empty [] = true
none_empty ([] ∷ rs) = false
none_empty ((x ∷ xs) ∷ rs) = none_empty rs

-- The outcome takes apart these bytes, and a hello has this size.
abbrev pub Splits : ℕ → Bytes → Outcome → Type 0
Splits n bytes closed = true ≡ false
Splits n bytes (pending buffer size) = (buffer ≡ bytes) × (length bytes < n)
Splits n bytes (greeted hello rest reads) =
    (hello ++ rest ++ all_of reads ≡ bytes) × (length hello ≡ n)

-- once the size is known
check_known :
    (buffer : Bytes) (max_length n : ℕ)
    → 0 < n
    → n ≤ max_length
    → check_request buffer max_length (some n) ≡ with_size buffer (some n)
unfolding check_request
check_known buffer max_length n some_bytes fits = ground arith

-- the reads after the size is known
known-Splits :
    (max_length n : ℕ) (reads : List Bytes) (buffer : Bytes)
    → 0 < n
    → n ≤ max_length
    → none_empty reads ≡ true
    → length buffer < n
    → Splits n (buffer ++ all_of reads) (read_hello max_length reads buffer (some n))
unfolding read_hello
known-Splits max_length n [] buffer positive fits full few =
    (sym (append-nil buffer), subst (λ l. length l < n) (sym (append-nil buffer)) few)
known-Splits max_length n ([] ∷ reads) buffer positive fits full few = absurd cc
known-Splits max_length n ((x ∷ xs) ∷ reads) buffer positive fits full few =
    let joined = buffer ++ x ∷ xs in
    let together = append_assoc buffer (x ∷ xs) (all_of reads) in
    elim (Bool-cases (leb n (length joined))) [
      | inl enough ↦
          rw (check_known joined max_length n positive fits, enough, read_hello)
            (
              ap (λ l. l ++ all_of reads) (take-append-drop n joined) ∙ together,
              length-take n joined (ground arith),
            )
      | inr short_of ↦
          rw (check_known joined max_length n positive fits, short_of, read_hello)
            (subst (λ bs. Splits n bs (read_hello max_length reads joined (some n))) together
              (known-Splits max_length n reads joined positive fits full (ground arith)))
    ]

size_positive : (hello : Bytes) (size : ℕ) → get_tls_hello_size hello ≡ some size → 0 < size
unfolding get_tls_hello_size
size_positive hello size h = ground arith

-- at the first read
check_first :
    (buffer : Bytes) (max_length size : ℕ)
    → get_tls_hello_size buffer ≡ some size
    → tls_header_len ≤ length buffer
    → size ≤ max_length
    → check_request buffer max_length (some 0) ≡ with_size buffer (some size)
unfolding check_request
check_first buffer max_length size named long fits =
    let positive = size_positive buffer size named in rw (named, check_request) (ground arith)

-- A hello that fits, and whose first read holds its size, is read whole, whatever the reads are: the
-- client is not closed, and the hello, what follows it and the reads to come are the bytes it sent.
pub read_hello-Splits :
    (max_length size : ℕ) (x : ℕ) (xs : Bytes) (reads : List Bytes)
    → get_tls_hello_size (x ∷ xs) ≡ some size
    → tls_header_len ≤ length (x ∷ xs)
    → size ≤ max_length
    → none_empty reads ≡ true
    → Splits size (all_of ((x ∷ xs) ∷ reads)) (read_hello max_length ((x ∷ xs) ∷ reads) [] (some 0))
unfolding read_hello
read_hello-Splits max_length size x xs reads named long fits full =
    let first = x ∷ xs in
    elim (Bool-cases (leb size (length first))) [
      | inl enough ↦
          rw (check_first first max_length size named long fits, enough, read_hello)
            (
              ap (λ l. l ++ all_of reads) (take-append-drop size first),
              length-take size first (ground arith),
            )
      | inr short_of ↦
          rw (check_first first max_length size named long fits, short_of, read_hello)
            (known-Splits max_length size reads first (size_positive first size named) fits full
              (ground arith))
    ]

-- A client whose first read, not empty, is shorter than the header of a record is closed by its
-- second, whatever it holds.
pub read_hello_short :
    (max_length x y : ℕ) (xs ys : Bytes) (reads : List Bytes)
    → length (x ∷ xs) < tls_header_len
    → read_hello max_length ((x ∷ xs) ∷ (y ∷ ys) ∷ reads) [] (some 0) ≡ closed
unfolding read_hello check_request
read_hello_short max_length x y xs ys reads few = ground arith
