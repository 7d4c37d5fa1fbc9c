-- ===== src/Util/MessageBox/Size.antt =====
-- lib/exaproxy/util/messagebox.py: what the first two loops of `read` find of a message, and its length.
use mathlib.Core.List.{append_assoc}
use mathlib.Core.Logic.{◌⊎◌, inl, inr}
use exaproxy.Common.{
  ℕ, zero, suc, ◌+◌, ◌-◌, ◌≤◌, ◌<◌, ◌≡◌, refl, sym, ap, ◌∙◌, true, false, Option, some, List, [],
  ◌∷◌, ◌++◌, length, take, drop, min, number_key, ◌==◌, arith, length-drop, take-append-drop,
}
use exaproxy.Util.MessageBox.{
  Bytes, Reading, all_digits, is_digit, read_first, read_digits, split_colon, without_eom,
  read_size,
}
use exaproxy.Util.MessageBox.Body.{some_of, take-append_within, drop-append_within}

-- A read that is asked for `m` bytes of `head ++ tail` ends in the head, or takes all of it and some of the tail.
read-splits :
    (m : ℕ) (head : Bytes)
    → (m ≤ length head)
      ⊎ ((i : ℕ) × (suc i + length head ≡ m)
          × ((tail : Bytes) → take m (head ++ tail) ≡ head ++ take (suc i) tail)
          × ((tail : Bytes) → drop m (head ++ tail) ≡ drop (suc i) tail))
read-splits zero head = inl (omega arith)
read-splits (suc m) [] = inr (m, omega arith, λ tail. refl, λ tail. refl)
read-splits (suc m) (x ∷ head) = elim (read-splits m head) [
  | inl within ↦ inl (omega arith)
  | inr (i, size, taken, dropped) ↦
      inr (i, omega (arith, size), λ tail. ap (◌∷◌ x) (taken tail), λ tail. dropped tail)
]

all_digits-append :
    (d e : Bytes) → all_digits d ≡ true → all_digits e ≡ true → all_digits (d ++ e) ≡ true
all_digits-append [] e left right = right
all_digits-append (x ∷ d) e left right = grind (arith, all_digits-append d e)

-- A text of digits and a colon is not one of digits.
is_digit-colon : (d tail : Bytes) → all_digits (d ++ 58 ∷ tail) ≡ false
is_digit-colon [] tail = refl
is_digit-colon (x ∷ d) tail = grind (arith, is_digit-colon d tail)

is_digit-append : (d e : Bytes) → is_digit d ≡ true → all_digits e ≡ true → is_digit (d ++ e) ≡ true
is_digit-append [] e left right = absurd (ground arith)
is_digit-append (x ∷ d) e left right = all_digits-append (x ∷ d) e left right

ends_at_colon : (d tail : Bytes) → is_digit (d ++ 58 ∷ tail) ≡ false
ends_at_colon [] tail = refl
ends_at_colon (x ∷ d) tail = is_digit-colon (x ∷ d) tail

-- The second loop stops at once on a text that is not one of digits.
read_digits_stop :
    (ks : List ℕ) (text stream : Bytes)
    → is_digit text ≡ false
    → read_digits (some_of ks) text stream ≡ some (text, some_of ks, stream)
unfolding read_digits
read_digits_stop [] text stream other = rw other refl
read_digits_stop (k ∷ ks) text stream other = rw other refl

-- The second loop reads the digits that are left and the colon.
read_digits_lem :
    (ks : List ℕ) (d e tail : Bytes)
    → is_digit d ≡ true
    → all_digits e ≡ true
    → length e < length ks
    → (js : List ℕ) × (length ks ≡ length js + suc (length e))
      × (read_digits (some_of ks) d (e ++ 58 ∷ tail) ≡ some (d ++ (e ++ 58 ∷ []), some_of js, tail))
unfolding read_digits
read_digits_lem [] d e tail digits others enough = absurd (omega arith)
read_digits_lem (k ∷ ks) d [] tail digits others enough =
    (ks, omega arith, rw digits (read_digits_stop ks (d ++ 58 ∷ []) tail (ends_at_colon d [])))
read_digits_lem (k ∷ ks) d (c ∷ e) tail digits others enough =
    let first : all_digits (c ∷ []) ≡ true = ground arith in
    let (js, count, went) =
      read_digits_lem ks (d ++ c ∷ []) e tail (is_digit-append d (c ∷ []) digits first)
        (ground arith) (omega arith) in
    (
      js,
      omega (arith, count),
      rw digits (
          went
          ∙ ap (λ (t : Bytes). some (t, some_of js, tail))
              (append_assoc d (c ∷ []) (e ++ 58 ∷ []))),
    )

pub split_colon_lem : (d p : Bytes) → all_digits d ≡ true → split_colon (d ++ 58 ∷ p) ≡ some (d, p)
unfolding split_colon
split_colon_lem [] p digits = refl
split_colon_lem (c ∷ d) p digits =
    let other : (c == 58) ≡ false = grind arith in
    let rest : all_digits d ≡ true = grind arith in rw other (rw (split_colon_lem d p rest) refl)

pub without_eom_lem : (text : Bytes) → without_eom (text ++ 44 ∷ []) ≡ some text
unfolding without_eom
without_eom_lem [] = refl
without_eom_lem (c ∷ []) = refl
without_eom_lem (c ∷ d ∷ text) = rw (without_eom_lem (d ∷ text)) refl

-- What `read_size` finds: the size, and the first `i` bytes of what comes after the colon, where `i` is at most 1.
unfoldable pub Found : Bytes → Bytes → Bytes → ℕ → Option Reading → Type 0
Found digits body rest left found =
    (i : ℕ) × (js : List ℕ) × (i ≤ 1)
    × (left ≤ length js)
    × (found ≡ some (digits ++ 58 ∷ take i body, some_of js, drop i body ++ rest))

all_digits-take : (m : ℕ) (d : Bytes) → all_digits d ≡ true → all_digits (take m d) ≡ true
all_digits-take zero d digits = refl
all_digits-take (suc m) [] digits = refl
all_digits-take (suc m) (x ∷ d) digits = grind (arith, all_digits-take m d)

all_digits-drop : (m : ℕ) (d : Bytes) → all_digits d ≡ true → all_digits (drop m d) ≡ true
all_digits-drop zero d digits = digits
all_digits-drop (suc m) [] digits = refl
all_digits-drop (suc m) (x ∷ d) digits = all_digits-drop m d (grind arith)

is_digit-take : (m : ℕ) (d : Bytes) → is_digit d ≡ true → 1 ≤ m → is_digit (take m d) ≡ true
is_digit-take zero d digits some_bytes = absurd (omega arith)
is_digit-take (suc m) [] digits some_bytes = absurd (ground arith)
is_digit-take (suc m) (x ∷ d) digits some_bytes = all_digits-take (suc m) (x ∷ d) digits

is_digit-drop : (m : ℕ) (d : Bytes) → is_digit d ≡ true → all_digits (drop m d) ≡ true
is_digit-drop m [] digits = absurd (ground arith)
is_digit-drop m (x ∷ d) digits = all_digits-drop m (x ∷ d) digits

-- A first read that ends in the size: the second loop reads on to the colon.
Found-early :
    (m : ℕ) (ks : List ℕ) (digits body rest : Bytes)
    → is_digit digits ≡ true
    → 1 ≤ m
    → m ≤ length digits
    → length digits + length body ≤ length ks
    → Found digits body rest (length body) (
        read_digits
          (some_of ks)
          (take m (digits ++ 58 ∷ (body ++ rest)))
          (drop m (digits ++ 58 ∷ (body ++ rest))))
unfolding Found
Found-early m ks digits body rest are_digits some_bytes within enough =
    let tail = 58 ∷ (body ++ rest) in
    let size : length (drop m digits) ≡ length digits - m = length-drop m digits in
    let (js, count, went) =
      read_digits_lem ks (take m digits) (drop m digits) (body ++ rest)
        (is_digit-take m digits are_digits some_bytes) (is_digit-drop m digits are_digits)
        (omega (arith, size)) in
    let whole : take m digits ++ (drop m digits ++ 58 ∷ []) ≡ digits ++ 58 ∷ [] =
      sym (append_assoc (take m digits) (drop m digits) (58 ∷ []))
      ∙ ap (λ (t : Bytes). t ++ 58 ∷ []) (take-append-drop m digits) in
    (
      0,
      js,
      omega arith,
      omega (arith, size, count),
      ap (λ (t : Bytes). read_digits (some_of ks) t (drop m (digits ++ tail)))
            (take-append_within m digits tail within)
          ∙ ap (λ (t : Bytes). read_digits (some_of ks) (take m digits) t)
              (drop-append_within m digits tail within)
          ∙ went
          ∙ ap (λ (t : Bytes). some (t, some_of js, body ++ rest)) whole,
    )

-- A first read that goes past the colon, by `i` bytes.
Found-late :
    (m i : ℕ) (ks : List ℕ) (digits body rest : Bytes)
    → i ≤ 1
    → i ≤ length body
    → length body ≤ length ks
    → ((tail : Bytes) → take m (digits ++ tail) ≡ digits ++ take (suc i) tail)
    → ((tail : Bytes) → drop m (digits ++ tail) ≡ drop (suc i) tail)
    → Found digits body rest (length body) (
        read_digits
          (some_of ks)
          (take m (digits ++ 58 ∷ (body ++ rest)))
          (drop m (digits ++ 58 ∷ (body ++ rest))))
unfolding Found
Found-late m i ks digits body rest few within enough taken dropped =
    let tail = 58 ∷ (body ++ rest) in
    (
      i,
      ks,
      few,
      enough,
      ap (λ (t : Bytes). read_digits (some_of ks) t (drop m (digits ++ tail)))
            (taken tail
              ∙ ap (λ (t : Bytes). digits ++ 58 ∷ t) (take-append_within i body rest within))
          ∙ ap (λ (t : Bytes). read_digits (some_of ks) (digits ++ 58 ∷ take i body) t)
              (dropped tail ∙ drop-append_within i body rest within)
          ∙ read_digits_stop ks (digits ++ 58 ∷ take i body) (drop i body ++ rest)
              (ends_at_colon digits (take i body)),
    )

length-is_digit : (digits : Bytes) → is_digit digits ≡ true → 1 ≤ length digits
length-is_digit [] are_digits = absurd (ground arith)
length-is_digit (d ∷ digits) are_digits = omega arith

pub read_size_lem :
    (ks : List ℕ) (digits body rest : Bytes)
    → is_digit digits ≡ true
    → 1 ≤ length body
    → length digits + length body + 1 ≤ length ks
    → Found digits body rest (length body) (read_size (some_of ks) (digits ++ 58 ∷ (body ++ rest)))
unfolding read_size read_first
read_size_lem [] digits body rest are_digits some_body enough = absurd (omega arith)
read_size_lem (k ∷ ks) digits body rest are_digits some_body enough =
    let m = min 3 (suc k) in
    elim (read-splits m digits) [
      | inl within ↦ Found-early m ks digits body rest are_digits (omega arith) within (omega arith)
      | inr (i, size, taken, dropped) ↦
          Found-late m i ks digits body rest
            (omega (arith, size, length-is_digit digits are_digits))
            (omega (arith, size, length-is_digit digits are_digits)) (omega arith) taken dropped
    ]

pub is_digit_all : (digits : Bytes) → is_digit digits ≡ true → all_digits digits ≡ true
is_digit_all [] are_digits = refl
is_digit_all (d ∷ digits) are_digits = are_digits
