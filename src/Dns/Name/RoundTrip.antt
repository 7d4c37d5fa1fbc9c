-- ===== src/Dns/Name/RoundTrip.antt =====
-- A name that is written is read back.
use mathlib.Core.List.{append_assoc, append-nil}
use exaproxy.Common.{
  ℕ, zero, suc, ◌+◌, ◌-◌, ◌<◌, ◌≡◌, ◌∙◌, ap, true, false, ◌&&◌, Option, none, some, List, [], ◌∷◌,
  ◌++◌, length, take, drop, ltb, leb, number_key, ◌==◌, arith, refl, subst, sym, mem, nat_beq_iff,
  length-append, drop-append,
}
use exaproxy.Dns.Name.{
  Text, is_empty, rstrip, split, join, written, string_to_dns, Name, labels, dns_string,
}

-- A label has from 1 to 191 bytes and no dot.
abbrev pub IsLabel : Text → Type 0
IsLabel p = (0 < length p) × (length p < 0xc0) × (mem 46 p ≡ false)

abbrev pub AllLabels : List Text → Type 0
AllLabels [] = true ≡ true
AllLabels (p ∷ ps) = IsLabel p × AllLabels ps

-- the labels with their lengths, and the end
abbrev pub wire : List Text → Text
wire [] = 0 ∷ []
wire (p ∷ ps) = length p ∷ (p ++ wire ps)

written-labels : (ps : List Text) → AllLabels ps → written (ps ++ ([] ∷ [])) ≡ some (wire ps)
unfolding written
written-labels [] v = refl
written-labels (p ∷ ps) v =
    let short : ltb 255 (length p) ≡ false = ground (arith, v.0.1) in
    rw (written-labels ps v.1, short, written) refl

split-nil : split [] ≡ [] ∷ []
unfolding split
split-nil = refl

split-label : (p tail : Text) → mem 46 p ≡ false → split (p ++ (46 ∷ tail)) ≡ p ∷ split tail
unfolding split
split-label [] tail h = refl
split-label (x ∷ p) tail h =
    let other : (x == 46) ≡ false = ground arith in
    let rest = split-label p tail (ground arith) in rw (rest, other, split) refl

split-joined :
    (p : Text) (ps : List Text)
    → AllLabels (p ∷ ps)
    → split (join (p ∷ ps) ++ (46 ∷ [])) ≡ p ∷ (ps ++ ([] ∷ []))
unfolding join
split-joined p [] v = split-label p [] v.0.2 ∙ ap (λ l. p ∷ l) split-nil
split-joined p (q ∷ ps) v =
    ap split (append_assoc p (46 ∷ join (q ∷ ps)) (46 ∷ []))
    ∙ split-label p (join (q ∷ ps) ++ (46 ∷ [])) v.0.2
    ∙ ap (λ l. p ∷ l) (split-joined q ps v.1)

filled_append : (xs t : Text) → is_empty t ≡ false → is_empty (xs ++ t) ≡ false
filled_append [] t k = k
filled_append (x ∷ xs) t k = refl

rstrip-append : (xs t : Text) → rstrip t ≡ t → is_empty t ≡ false → rstrip (xs ++ t) ≡ xs ++ t
unfolding rstrip
rstrip-append [] t h k = h
rstrip-append (x ∷ xs) t h k =
    let rest = rstrip-append xs t h k in
    let filled : is_empty (xs ++ t) ≡ false = filled_append xs t k in rw (rest, filled, rstrip) refl

rstrip-label : (p : Text) → mem 46 p ≡ false → rstrip p ≡ p
unfolding rstrip
rstrip-label [] h = refl
rstrip-label (x ∷ p) h =
    let rest = rstrip-label p (ground arith) in
    let other : (is_empty p && x == 46) ≡ false = ground arith in rw (rest, other, rstrip) refl

join-filled : (p : Text) (ps : List Text) → AllLabels (p ∷ ps) → is_empty (join (p ∷ ps)) ≡ false
unfolding join
join-filled [] ps v = absurd (omega (arith, v.0.0))
join-filled (x ∷ p) [] v = refl
join-filled (x ∷ p) (q ∷ ps) v = refl

rstrip-join :
    (p : Text) (ps : List Text) → AllLabels (p ∷ ps) → rstrip (join (p ∷ ps)) ≡ join (p ∷ ps)
unfolding join
rstrip-join p [] v = rstrip-label p v.0.2
rstrip-join p (q ∷ ps) v =
    let tail = join (q ∷ ps) in
    let whole = append_assoc p (46 ∷ []) tail in
    subst (λ l. rstrip l ≡ l) whole
      (rstrip-append (p ++ (46 ∷ [])) tail (rstrip-join q ps v.1) (join-filled q ps v.1))

string_to_dns-join :
    (p : Text) (ps : List Text)
    → AllLabels (p ∷ ps)
    → string_to_dns (join (p ∷ ps)) ≡ some (wire (p ∷ ps))
unfolding string_to_dns
string_to_dns-join p ps v =
    ap (λ s. written (split (s ++ (46 ∷ [])))) (rstrip-join p ps v)
    ∙ ap written (split-joined p ps v)
    ∙ written-labels (p ∷ ps) v

take_append : (xs ys : Text) → take (length xs) (xs ++ ys) ≡ xs
take_append [] ys = refl
take_append (x ∷ xs) ys = ap (λ l. x ∷ l) (take_append xs ys)

labels-label :
    (fuel r n : ℕ) (ps : List Text) (p tail : Text)
    → IsLabel p
    → length p + 1 < r
    → labels (suc fuel) r n ps (length p ∷ (p ++ tail))
      ≡ labels fuel (r - (length p + 1)) (n + (length p + 1)) (ps ++ (p ∷ [])) tail
unfolding labels
labels-label fuel r n ps p tail v room =
    let plain : leb 0xc0 (length p) ≡ false = ground (arith, v.1) in
    let some_bytes : (length p == 0) ≡ false = ground (arith, v.0, nat_beq_iff (length p) 0) in
    let more : leb r (length p + 1) ≡ false = ground arith in
    let step = labels fuel (r - (length p + 1)) (n + (length p + 1)) in
    rw (plain, some_bytes, more, labels)
      (ap (λ t. step (ps ++ (t ∷ [])) (drop (length p) (p ++ tail))) (take_append p tail)
        ∙ ap (step (ps ++ (p ∷ []))) (drop-append p tail))

abbrev read_name : ℕ → List Text → Option Name
read_name n ps = some (record { bytes_read = some n; value = join ps; ptr = none })

labels-end :
    (fuel r n : ℕ) (ps : List Text) (rest : Text)
    → labels (suc fuel) r n ps (0 ∷ rest) ≡ read_name (n + 1) ps
unfolding labels
labels-end fuel r n ps rest = refl

wire_some : (qs : List Text) → 0 < length (wire qs)
wire_some [] = omega arith
wire_some (p ∷ qs) = omega arith

labels-wire :
    (fuel n : ℕ) (ps qs : List Text) (rest : Text)
    → AllLabels qs
    → length qs < fuel
    → labels fuel (length (wire qs ++ rest)) n ps (wire qs ++ rest)
      ≡ read_name (n + length (wire qs)) (ps ++ qs)
labels-wire zero n ps qs rest v few = absurd (omega arith)
labels-wire (suc fuel) n ps [] rest v few =
    labels-end fuel (length (wire [] ++ rest)) n ps rest
    ∙ ap (read_name (n + 1)) (sym (append-nil ps))
labels-wire (suc fuel) n ps (p ∷ qs) rest v few =
    let tail = wire qs ++ rest in
    let len = length p in
    let r = length (len ∷ (p ++ tail)) in
    let whole : length (p ++ tail) ≡ len + length tail = length-append p tail in
    let written_all : length (p ++ wire qs) ≡ len + length (wire qs) = length-append p (wire qs) in
    let after : 0 < length tail = omega (arith, length-append (wire qs) rest, wire_some qs) in
    let left : r - (len + 1) ≡ length tail = omega arith in
    let sum : n + (len + 1) + length (wire qs) ≡ n + length (wire (p ∷ qs)) = omega arith in
    ap (λ s. labels (suc fuel) (length (len ∷ s)) n ps (len ∷ s)) (append_assoc p (wire qs) rest)
    ∙ labels-label fuel r n ps p tail v.0 (omega arith)
    ∙ ap (λ k. labels fuel k (n + (len + 1)) (ps ++ (p ∷ [])) tail) left
    ∙ labels-wire fuel (n + (len + 1)) (ps ++ (p ∷ [])) qs rest v.1 (omega arith)
    ∙ ap (λ k. read_name k ((ps ++ (p ∷ [])) ++ qs)) sum
    ∙ ap (read_name (n + length (wire (p ∷ qs)))) (append_assoc ps (p ∷ []) qs)

length-wire : (qs : List Text) → length qs < length (wire qs)
length-wire [] = omega arith
length-wire (p ∷ qs) = omega (arith, length-wire qs, length-append p (wire qs))

-- A name of at least one label, each of 1 to 191 bytes and without a dot, that is written for a packet is
-- read back, whatever follows it: the text is the same, and the bytes read are those written.
pub dns_string-string_to_dns :
    (p : Text) (ps : List Text) (rest : Text)
    → AllLabels (p ∷ ps)
    → (bytes : Text) × (string_to_dns (join (p ∷ ps)) ≡ some bytes)
      × (dns_string (bytes ++ rest)
          ≡ some (record { bytes_read = some (length bytes); value = join (p ∷ ps); ptr = none }))
unfolding dns_string
dns_string-string_to_dns p ps rest v =
    let bytes = wire (p ∷ ps) in
    let sum : 0 + length bytes ≡ length bytes = omega arith in
    (
      bytes,
      string_to_dns-join p ps v,
      labels-wire (length (bytes ++ rest)) 0 [] (p ∷ ps) rest v
            (omega (arith, length-wire (p ∷ ps), length-append bytes rest))
          ∙ ap (λ k. read_name k (p ∷ ps)) sum,
    )
