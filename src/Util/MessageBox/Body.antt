-- ===== src/Util/MessageBox/Body.antt =====
-- lib/exaproxy/util/messagebox.py: what the last loop of `read` reads.
use mathlib.Core.List.{append_assoc, append-nil}
use exaproxy.Common.{
  ℕ, zero, suc, ◌-◌, ◌≤◌, ◌≡◌, refl, sym, ap, ◌∙◌, some, List, [], ◌∷◌, ◌++◌, length, take, drop,
  min, number_key, arith, length-take, length-drop, take-append-drop,
}
use exaproxy.Util.MessageBox.{Bytes, Answers, read_rest}

-- Answers none of which is an IOError.
abbrev pub some_of : List ℕ → Answers
some_of [] = []
some_of (k ∷ ks) = some k ∷ some_of ks

pub take-append_within : (n : ℕ) (p s : Bytes) → n ≤ length p → take n (p ++ s) ≡ take n p
take-append_within zero p s h = refl
take-append_within (suc n) [] s h = absurd (omega arith)
take-append_within (suc n) (x ∷ p) s h = ap (◌∷◌ x) (take-append_within n p s (omega arith))

pub drop-append_within : (n : ℕ) (p s : Bytes) → n ≤ length p → drop n (p ++ s) ≡ drop n p ++ s
drop-append_within zero p s h = refl
drop-append_within (suc n) [] s h = absurd (omega arith)
drop-append_within (suc n) (x ∷ p) s h = drop-append_within n p s (omega arith)

-- A last loop that is to read `data` reads all of it and no more.
pub read_rest_lem :
    (ks : List ℕ) (n : ℕ) (text data1 rest : Bytes)
    → n ≡ length data1
    → n ≤ length ks
    → (js : List ℕ) × (read_rest (some_of ks) n text (data1 ++ rest)
        ≡ some (text ++ data1, some_of js, rest))
unfolding read_rest
read_rest_lem ks zero text [] rest size enough =
    (ks, ap (λ (t : Bytes). some (t, some_of ks, rest)) (sym (append-nil text)))
read_rest_lem ks zero text (x ∷ data1) rest size enough = absurd (omega arith)
read_rest_lem [] (suc n) text data1 rest size enough = absurd (omega arith)
read_rest_lem (k ∷ ks) (suc n) text data1 rest size enough =
    let m = min (suc n) (suc k) in
    let within : m ≤ length data1 = omega arith in
    let taken : take m (data1 ++ rest) ≡ take m data1 = take-append_within m data1 rest within in
    let dropped : drop m (data1 ++ rest) ≡ drop m data1 ++ rest =
      drop-append_within m data1 rest within in
    let left : suc n - length (take m data1) ≡ length (drop m data1) =
      omega (arith, length-drop m data1, length-take m data1 within) in
    let (js, went) =
      read_rest_lem ks (suc n - length (take m data1)) (text ++ take m data1) (drop m data1) rest
        left (omega (arith, length-take m data1 within)) in
    let whole : (text ++ take m data1) ++ drop m data1 ≡ text ++ data1 =
      append_assoc text (take m data1) (drop m data1)
      ∙ ap (λ (t : Bytes). text ++ t) (take-append-drop m data1) in
    (
      js,
      ap
            (λ (t : Bytes).
              read_rest (some_of ks) (suc n - length t) (text ++ t) (drop m (data1 ++ rest)))
            taken
          ∙ ap
              (λ (t : Bytes).
                read_rest (some_of ks) (suc n - length (take m data1)) (text ++ take m data1) t)
              dropped
          ∙ went
          ∙ ap (λ (t : Bytes). some (t, some_of js, rest)) whole,
    )
