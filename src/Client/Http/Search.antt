-- ===== src/Client/Http/Search.antt =====
-- Searching a request in what was read: `find`, and `checkRequest`.
use mathlib.Core.List.{append_assoc}
use exaproxy.Common.{
  ℕ, zero, suc, ◌+◌, ◌%◌, ◌≡◌, ◌⊎◌, ◌∙◌, ap, sym, subst, refl, inl, inr, true, false, not, ◌&&◌,
  some, List, [], ◌∷◌, ◌++◌, length, take, drop, ltb, number_key, ◌==◌, arith, nat_beq_iff,
  take-append-drop, Option-cases, Bool-cases,
}
use exaproxy.Client.Http.{
  Text, is_empty, starts_with, find, count_quotes, eor, Looked, found, not_found, look, Checked,
  request, unfinished, too_long, checked, check_request,
}

starts_with_sound :
    (sub text : Text) → starts_with sub text ≡ true → text ≡ sub ++ drop (length sub) text
unfolding starts_with
starts_with_sound [] text h = refl
starts_with_sound (p ∷ ps) [] h = absurd cc
starts_with_sound (p ∷ ps) (x ∷ xs) h =
    let same : p ≡ x = ground (arith, nat_beq_iff p x) in
    let rest = starts_with_sound ps xs (ground arith) in
    ap (λ y. y ∷ xs) (sym same) ∙ ap (λ l. p ∷ l) rest

-- The text that is found stands where `find` says.
pub find_sound :
    (sub text : Text) (pos : ℕ)
    → find sub text ≡ some pos
    → drop pos text ≡ sub ++ drop (pos + length sub) text
unfolding find
find_sound sub [] pos h = absurd cc
find_sound sub (x ∷ xs) zero h =
    starts_with_sound sub (x ∷ xs) (ground arith) ∙ ap (λ k. sub ++ drop k (x ∷ xs)) (omega arith)
find_sound sub (x ∷ xs) (suc pos) h =
    let e : suc (pos + length sub) ≡ suc pos + length sub = omega arith in
    find_sound sub xs pos (ground arith) ∙ ap (λ k. sub ++ drop k (x ∷ xs)) e

drop-nil : (n : ℕ) → drop n [] ≡ (let l : Text = [] in l)
drop-nil zero = refl
drop-nil (suc n) = refl

drop-drop : (m n : ℕ) (xs : Text) → drop n (drop m xs) ≡ drop (m + n) xs
drop-drop zero n xs = ap (λ k. drop k xs) (omega arith)
drop-drop (suc m) n [] = drop-nil n ∙ sym (drop-nil (suc m + n))
drop-drop (suc m) n (x ∷ xs) =
    let e : suc (m + n) ≡ suc m + n = omega arith in drop-drop m n xs ∙ ap (λ k. drop k (x ∷ xs)) e

abbrev pub IsOneOf : Text → List Text → Type 0
IsOneOf sep [] = true ≡ false
IsOneOf sep (s ∷ seps) = (sep ≡ s) ⊎ IsOneOf sep seps

-- A request ends with one of the separators, its quotes are matched, and with what follows it it makes
-- up what was read.
abbrev pub Joins : List Text → Text → Text → Text → Type 0
Joins seps r_buffer text rest =
    (text ++ rest ≡ r_buffer)
    × ((body : Text) × (sep : Text) × (text ≡ body ++ sep)
        × IsOneOf sep seps
        × (count_quotes body % 2 ≡ 0))

abbrev LookJoins : List Text → Text → Looked → Type 0
LookJoins seps r_buffer (found text rest s) = Joins seps r_buffer text rest
LookJoins seps r_buffer (not_found s) = true ≡ true

more :
    (sep : Text) (seps : List Text) (r : Text) (l : Looked)
    → LookJoins seps r l
    → LookJoins (sep ∷ seps) r l
more sep seps r (not_found s) j = j
more sep seps r (found text rest s) (whole, (body, end, parts, member, matched)) =
    (whole, (body, end, parts, inr member, matched))

cut :
    (sep r : Text) (seek pos : ℕ)
    → find sep (drop seek r) ≡ some pos
    → take (seek + pos) r ++ sep ++ drop (seek + pos + length sep) r ≡ r
cut sep r seek pos h =
    let same : seek + (pos + length sep) ≡ seek + pos + length sep = omega arith in
    append_assoc (take (seek + pos) r) sep (drop (seek + pos + length sep) r)
    ∙ ap (λ l. take (seek + pos) r ++ l)
        (sym (
          sym (drop-drop seek pos r)
          ∙ find_sound sep (drop seek r) pos h
          ∙ ap (λ l. sep ++ l) (drop-drop seek (pos + length sep) r)
          ∙ ap (λ k. sep ++ drop k r) same))
    ∙ take-append-drop (seek + pos) r

look-Joins : (seps : List Text) (r : Text) (seek : ℕ) → LookJoins seps r (look seps r seek)
unfolding look
look-Joins [] r seek = refl
look-Joins (sep ∷ seps) r seek = elim (Option-cases (find sep (drop seek r))) [
  | inl absent ↦ rw (absent, look) (more sep seps r (look seps r seek) (look-Joins seps r seek))
  | inr (pos, place) ↦
      let body = take (seek + pos) r in
      let after = seek + pos + length sep in
      let later = more sep seps r (look seps r after) (look-Joins seps r after) in
      elim (Bool-cases (is_empty body)) [
        | inl bare ↦
            rw (place, bare, look) (more sep seps r (look seps r seek) (look-Joins seps r seek))
        | inr filled ↦ elim (Bool-cases (count_quotes body % 2 == 0)) [
          | inl matched ↦
              rw (place, filled, matched, look)
                (
                  cut sep r seek pos place,
                  (
                    body,
                    sep,
                    refl,
                    inl refl,
                    ground (arith, nat_beq_iff (count_quotes body % 2) 0),
                  ),
                )
          | inr odd ↦ rw (place, filled, odd, look) later
        ]
      ]
]

abbrev CheckJoins : Text → Checked → Type 0
CheckJoins r_buffer (request text rest s) = Joins eor r_buffer text rest
CheckJoins r_buffer too_long = true ≡ true
CheckJoins r_buffer (unfinished s) = true ≡ true

checked-Joins :
    (r : Text) (size : ℕ) (l : Looked) → LookJoins eor r l → CheckJoins r (checked r size l)
checked-Joins r size (found text rest s) j = j
checked-Joins r size (not_found s) j = elim (Bool-cases (not (size == 0) && ltb size (length r))) [
  | inl long ↦ rw (long, checked) refl
  | inr short ↦ rw (short, checked) refl
]

-- What `checkRequest` takes for a request is the beginning of what was read, up to a separator outside
-- of quotes; what it leaves is the rest.
pub check_request-Joins :
    (r_buffer : Text) (size seek : ℕ) (text rest : Text) (s : ℕ)
    → check_request r_buffer size seek ≡ request text rest s
    → Joins eor r_buffer text rest
unfolding check_request
check_request-Joins r_buffer size seek text rest s h =
    subst (CheckJoins r_buffer) h
      (checked-Joins r_buffer size (look eor r_buffer seek) (look-Joins eor r_buffer seek))
