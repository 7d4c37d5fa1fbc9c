-- ===== src/Client/Http/Chunks.antt =====
-- `checkChunkSize` reads back a body that is written in chunks.
use mathlib.Core.List.{append_assoc}
use exaproxy.Common.{
  ℕ, zero, suc, ◌+◌, ◌≤◌, ◌<◌, ◌≡◌, ◌∙◌, ap, sym, subst, refl, Bool, true, false, Option, none,
  some, List, [], ◌∷◌, ◌++◌, length, drop, ltb, number_key, ◌==◌, mem, arith, nat_beq_iff,
  length-append, drop-append,
}
use exaproxy.Client.Http.{
  Text, is_hex_digit, all_hex, is_hex, int16, split, chomp, bare, chunk_turn, chunk_line,
  check_chunks, check_chunk_size,
}

split-append :
    (c : ℕ) (xs tail : Text) → mem c xs ≡ false → split c (xs ++ c ∷ tail) ≡ some (xs, tail)
unfolding split
split-append c [] tail h = ground (arith, nat_beq_iff c c)
split-append c (x ∷ xs) tail h = ground (arith, split-append c xs tail)

split-absent : (c : ℕ) (xs : Text) → mem c xs ≡ false → split c xs ≡ none
unfolding split
split-absent c [] h = refl
split-absent c (x ∷ xs) h = ground (arith, split-absent c xs)

chomp-plain : (xs : Text) → mem 13 xs ≡ false → chomp xs ≡ (xs, 1)
unfolding chomp
chomp-plain [] h = refl
chomp-plain (x ∷ []) h = ground arith
chomp-plain (x ∷ y ∷ xs) h = ground (arith, chomp-plain (y ∷ xs))

chomp-return : (xs : Text) → chomp (xs ++ 13 ∷ []) ≡ (xs, 2)
unfolding chomp
chomp-return [] = refl
chomp-return (x ∷ []) = refl
chomp-return (x ∷ y ∷ xs) = ground (arith, chomp-return (y ∷ xs))

-- no separator among hexadecimal digits
hex-absent :
    (xs : Text)
    → all_hex xs ≡ true
    → (mem 10 xs ≡ false) × (mem 13 xs ≡ false) × (mem 59 xs ≡ false)
unfolding is_hex_digit
hex-absent [] h = (refl, refl, refl)
hex-absent (x ∷ xs) h =
    (ground (arith, hex-absent xs), ground (arith, hex-absent xs), ground (arith, hex-absent xs))

absent-append : (xs : Text) → mem 10 xs ≡ false → mem 10 (xs ++ 13 ∷ []) ≡ false
absent-append [] h = refl
absent-append (x ∷ xs) h = ground (arith, absent-append xs)

abbrev pub end_of_line : Bool → Text
end_of_line true = 13 ∷ 10 ∷ []
end_of_line false = 10 ∷ []

pub record Chunk : Type 0 where
  pub digits : Text
  pub body : Text
  pub crlf : Bool

-- the length of the body, in digits, and not more than the reader takes
abbrev pub IsChunk : Chunk → Type 0
IsChunk c =
    (is_hex c.digits ≡ true)
    × (int16 0 c.digits ≡ length c.body)
    × (0 < length c.body)
    × (length c.body ≤ 0x100000)

abbrev pub AllChunks : List Chunk → Type 0
AllChunks [] = true ≡ true
AllChunks (c ∷ cs) = IsChunk c × AllChunks cs

abbrev pub header_of : Text → Bool → Text
header_of digits crlf = digits ++ end_of_line crlf

abbrev pub printed : List Chunk → Text → Text
printed [] rest = rest
printed (c ∷ cs) rest =
    c.digits ++ (end_of_line c.crlf ++ (c.body ++ (end_of_line c.crlf ++ printed cs rest)))

-- A header line is cut off, and its digits found.
abbrev line_of : Text → Bool → Text
line_of digits true = digits ++ 13 ∷ []
line_of digits false = digits

split-header :
    (digits tail : Text) (crlf : Bool)
    → all_hex digits ≡ true
    → split 10 (digits ++ (end_of_line crlf ++ tail)) ≡ some (line_of digits crlf, tail)
split-header digits tail true h =
    subst (λ l. split 10 l ≡ some (digits ++ 13 ∷ [], tail))
      (append_assoc digits (13 ∷ []) (10 ∷ tail))
      (split-append 10 (digits ++ 13 ∷ []) tail (absent-append digits (hex-absent digits h).0))
split-header digits tail false h = split-append 10 digits tail (hex-absent digits h).0

chomp-header :
    (digits : Text) (crlf : Bool)
    → all_hex digits ≡ true
    → chomp (line_of digits crlf) ≡ (digits, length (end_of_line crlf))
chomp-header digits true h = chomp-return digits
chomp-header digits false h = chomp-plain digits (hex-absent digits h).1

bare-digits : (digits : Text) → all_hex digits ≡ true → bare digits ≡ digits
bare-digits digits h = rw (split-absent 59 digits (hex-absent digits h).2, bare) refl

is_hex-all : (digits : Text) → is_hex digits ≡ true → all_hex digits ≡ true
unfolding is_hex
is_hex-all digits h = ground arith

length-line :
    (digits : Text) (crlf : Bool)
    → length (line_of digits crlf) + 1 ≡ length (header_of digits crlf)
length-line digits true =
    omega (arith, length-append digits (13 ∷ []), length-append digits (13 ∷ 10 ∷ []))
length-line digits false = omega (arith, length-append digits (10 ∷ []))

check_chunks-line :
    (fuel total : ℕ) (text line rest : Text)
    → split 10 text ≡ some (line, rest)
    → check_chunks (suc fuel) total text ≡ chunk_line total line rest (check_chunks fuel)
unfolding check_chunks split
check_chunks-line fuel total [] line rest h = absurd cc
check_chunks-line fuel total (x ∷ xs) line rest h = rw (h, check_chunks) refl

-- A header line is read as its digits and its end of line.
chunk_line-header :
    (total : ℕ) (digits : Text) (crlf : Bool) (rest : Text) (next : ℕ → Text → Bool × Option ℕ)
    → all_hex digits ≡ true
    → chunk_line total (line_of digits crlf) rest next
      ≡ chunk_turn total
          (length (header_of digits crlf))
          digits
          (length (end_of_line crlf))
          rest
          next
chunk_line-header total digits crlf rest next h =
    ap
      (λ (p : Text × ℕ).
        chunk_turn total (length (line_of digits crlf) + 1) (bare p.0) p.1 rest next)
      (chomp-header digits crlf h)
    ∙ ap
        (λ d.
          chunk_turn total (length (line_of digits crlf) + 1) d (length (end_of_line crlf)) rest
            next)
        (bare-digits digits h)
    ∙ ap (λ n. chunk_turn total n digits (length (end_of_line crlf)) rest next)
        (length-line digits crlf)

chunk_turn-other :
    (total len_header : ℕ) (digits : Text) (len_eol n : ℕ) (rest : Text)
    (next : ℕ → Text → Bool × Option ℕ)
    → is_hex digits ≡ true
    → int16 0 digits ≡ n
    → 0 < n
    → n ≤ 0x100000
    → chunk_turn total len_header digits len_eol rest next
      ≡ next (total + (n + len_eol + len_header)) (drop (n + len_eol) rest)
chunk_turn-other total len_header digits len_eol n rest next h value some_bytes fits =
    let small : ltb 0x100000 n ≡ false = ground arith in
    let more : (n == 0) ≡ false = ground (arith, nat_beq_iff n 0) in rw (h, value, small, more) refl

drop_two : (xs ys rest : Text) → drop (length xs + length ys) (xs ++ (ys ++ rest)) ≡ rest
drop_two xs ys rest =
    ap (drop (length xs + length ys)) (sym (append_assoc xs ys rest))
    ∙ ap (λ k. drop k ((xs ++ ys) ++ rest)) (sym (length-append xs ys))
    ∙ drop-append (xs ++ ys) rest

total_chunk :
    (total : ℕ) (c : Chunk)
    → total + (length c.body + length (end_of_line c.crlf) + length (header_of c.digits c.crlf))
      ≡ total + length (printed (c ∷ []) [])
total_chunk total c =
    let e = end_of_line c.crlf in
    omega (
      arith,
      length-append c.digits e,
      length-append c.digits (e ++ (c.body ++ (e ++ []))),
      length-append e (c.body ++ (e ++ [])),
      length-append c.body (e ++ []),
      length-append e [],
    )

-- A turn of the loop takes a chunk.
check_chunks-chunk :
    (fuel total : ℕ) (c : Chunk) (rest : Text)
    → IsChunk c
    → check_chunks (suc fuel) total (printed (c ∷ []) rest)
      ≡ check_chunks fuel (total + length (printed (c ∷ []) [])) rest
check_chunks-chunk fuel total c rest h =
    let tail = c.body ++ (end_of_line c.crlf ++ rest) in
    let hex = is_hex-all c.digits h.0 in
    check_chunks-line fuel total (printed (c ∷ []) rest) (line_of c.digits c.crlf) tail
      (split-header c.digits tail c.crlf hex)
    ∙ chunk_line-header total c.digits c.crlf tail (check_chunks fuel) hex
    ∙ chunk_turn-other total (length (header_of c.digits c.crlf)) c.digits
        (length (end_of_line c.crlf)) (length c.body) tail (check_chunks fuel) h.0 h.1 h.2 h.3
    ∙ ap (λ n. check_chunks fuel n (drop (length c.body + length (end_of_line c.crlf)) tail))
        (total_chunk total c)
    ∙ ap (check_chunks fuel (total + length (printed (c ∷ []) [])))
        (drop_two c.body (end_of_line c.crlf) rest)

-- The last chunk ends the loop.
check_chunks-last :
    (fuel total : ℕ) (digits : Text) (crlf : Bool) (rest : Text)
    → is_hex digits ≡ true
    → int16 0 digits ≡ 0
    → check_chunks (suc fuel) total (digits ++ (end_of_line crlf ++ rest))
      ≡ (false, some (total + length (header_of digits crlf)))
check_chunks-last fuel total digits crlf rest h none_left =
    let hex = is_hex-all digits h in
    check_chunks-line fuel total (digits ++ (end_of_line crlf ++ rest)) (line_of digits crlf) rest
      (split-header digits rest crlf hex)
    ∙ chunk_line-header total digits crlf rest (check_chunks fuel) hex
    ∙ rw (h, none_left) refl

length-printed :
    (c : Chunk) (rest : Text)
    → length (printed (c ∷ []) rest) ≡ length (printed (c ∷ []) []) + length rest
length-printed c rest =
    let e = end_of_line c.crlf in
    omega (
      arith,
      length-append c.digits (e ++ (c.body ++ (e ++ rest))),
      length-append e (c.body ++ (e ++ rest)),
      length-append c.body (e ++ rest),
      length-append e rest,
      total_chunk 0 c,
      length-append c.digits e,
    )

pub end_of_line_some : (crlf : Bool) → 0 < length (end_of_line crlf)
end_of_line_some true = omega arith
end_of_line_some false = omega arith

pub length-printed_le :
    (cs : List Chunk) (rest : Text) → length cs + length rest ≤ length (printed cs rest)
length-printed_le [] rest = omega arith
length-printed_le (c ∷ cs) rest =
    let e = end_of_line c.crlf in
    omega (
      arith,
      length-printed_le cs rest,
      length-printed c (printed cs rest),
      total_chunk 0 c,
      end_of_line_some c.crlf,
    )

check_chunks-printed :
    (cs : List Chunk) (fuel total : ℕ) (digits : Text) (crlf : Bool) (rest : Text)
    → AllChunks cs
    → is_hex digits ≡ true
    → int16 0 digits ≡ 0
    → length cs < fuel
    → check_chunks fuel total (printed cs (digits ++ (end_of_line crlf ++ rest)))
      ≡ (false, some (total + length (printed cs (header_of digits crlf))))
check_chunks-printed cs zero total digits crlf rest valid h none_left few = absurd (omega arith)
check_chunks-printed [] (suc fuel) total digits crlf rest valid h none_left few =
    check_chunks-last fuel total digits crlf rest h none_left
check_chunks-printed (c ∷ cs) (suc fuel) total digits crlf rest valid h none_left few =
    check_chunks-chunk fuel total c (printed cs (digits ++ (end_of_line crlf ++ rest))) valid.0
    ∙ check_chunks-printed cs fuel (total + length (printed (c ∷ []) [])) digits crlf rest valid.1 h
        none_left (omega arith)
    ∙ ap (λ n. (false, some n))
        (omega (arith, length-printed c (printed cs (header_of digits crlf))))

-- A body in chunks, each with its length in hexadecimal digits, from 1 to 0x100000, and lines that
-- end in a line feed with or without a carriage return, is measured up to the header of its last
-- chunk, which is zero, whatever follows: its end is seen, and its length is that of its text.
pub check_chunk_size-printed :
    (cs : List Chunk) (digits : Text) (crlf : Bool) (rest : Text)
    → AllChunks cs
    → is_hex digits ≡ true
    → int16 0 digits ≡ 0
    → check_chunk_size (printed cs (digits ++ (end_of_line crlf ++ rest)))
      ≡ (false, some (length (printed cs (header_of digits crlf))))
unfolding check_chunk_size
check_chunk_size-printed cs digits crlf rest valid h none_left =
    let last = digits ++ (end_of_line crlf ++ rest) in
    check_chunks-printed cs (length (printed cs last)) 0 digits crlf rest valid h none_left (
      omega (
        arith,
        length-printed_le cs last,
        length-append digits (end_of_line crlf ++ rest),
        length-append (end_of_line crlf) rest,
        end_of_line_some crlf,
      ))
    ∙ ap (λ n. (false, some n)) (omega arith)
