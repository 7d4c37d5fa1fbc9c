-- ===== src/Dns/Name.antt =====
-- lib/exaproxy/dns/convert.py: names as text and as labels with their lengths. A text is its list of
-- bytes; an index out of range is an IndexError, `none` here.

pub mod RoundTrip
pub mod Pointers
mod Tests
use exaproxy.Common.{
  ℕ, zero, suc, ◌+◌, ◌-◌, ◌*◌, Bool, true, false, ◌&&◌, Option, none, some, List, [], ◌∷◌, ◌++◌,
  if◌then◌else◌, length, take, drop, ltb, leb, number_key, ◌==◌,
}

abbrev pub Text : Type 0
Text = List ℕ

abbrev pub is_empty : Text → Bool
is_empty [] = true
is_empty (x ∷ xs) = false

-- `s.rstrip('.')`, `s.split('.')` and `'.'.join(parts)`
unfoldable pub rstrip : Text → Text
rstrip [] = []
rstrip (x ∷ xs) = let rest = rstrip xs in if is_empty rest && x == 46 then [] else x ∷ rest

abbrev pub push : ℕ → List Text → List Text
push x [] = (x ∷ []) ∷ []
push x (p ∷ ps) = (x ∷ p) ∷ ps

unfoldable pub split : Text → List Text
split [] = [] ∷ []
split (x ∷ xs) = let rest = split xs in if x == 46 then [] ∷ rest else push x rest

unfoldable pub join : List Text → Text
join [] = []
join (p ∷ []) = p
join (p ∷ q ∷ ps) = p ++ (46 ∷ join (q ∷ ps))

-- `''.join('%c%s' % (len(p), p) for p in parts)`; a length above 255 is an OverflowError
unfoldable pub written : List Text → Option Text
written [] = some []
written (p ∷ ps) =
    let rest = written ps in
    if ltb 255 (length p)
    then none
    else elim rest [ none ↦ none | some text ↦ some (length p ∷ (p ++ text)) ]

unfoldable pub string_to_dns : Text → Option Text
string_to_dns s = written (split (rstrip s ++ (46 ∷ [])))

-- What `dns_string` returns: `none` for bytes_read is None.
pub record Name : Type 0 where
  pub bytes_read : Option ℕ
  pub value : Text
  pub ptr : Option ℕ

-- The loop of `dns_string`, on fuel; `remaining` is the one before its length is taken off.
unfoldable pub labels : ℕ → ℕ → ℕ → List Text → Text → Option Name
labels zero remaining bytes_read parts s =
    some (record { bytes_read = some bytes_read; value = []; ptr = none })
labels (suc fuel) remaining bytes_read parts [] =
    some (record { bytes_read = some bytes_read; value = []; ptr = none })
labels (suc fuel) remaining bytes_read parts (len ∷ s) =
    let rest =
      labels fuel (remaining - (len + 1)) (bytes_read + (len + 1)) (parts ++ (take len s ∷ []))
        (drop len s) in
    if leb 0xc0 len
    then elim s [
      | [] ↦ none
      | low ∷ _ ↦ some (record {
        bytes_read = some (bytes_read + 2);
        value = join parts;
        ptr = some ((len - 0xc0) * 256 + low);
      })
    ]
    else if len == 0
    then some (record { bytes_read = some (bytes_read + 1); value = join parts; ptr = none })
    else if leb remaining (len + 1)
    then some (record { bytes_read = none; value = []; ptr = none })
    else rest

unfoldable pub dns_string : Text → Option Name
dns_string s = labels (length s) (length s) 0 [] s

abbrev pub total : List Text → ℕ
total [] = 0
total (p ∷ ps) = length p + total ps

-- `[value] if value else []`
abbrev pub listed : Text → List Text
listed [] = []
listed (x ∷ xs) = (x ∷ xs) ∷ []

-- How following the pointers of a name ends: with parts, with more than 500 bytes of them, with an
-- IndexError, or not within the fuel.
pub data Followed : Type 0 where
  parts_of : List Text → Followed
  too_long out_of_range still_running : Followed

-- The loop of `dns_to_string_info`, on fuel. A value is a text, never None.
unfoldable pub follow : ℕ → Text → List Text → Option ℕ → Followed
follow fuel packet parts none = parts_of parts
follow zero packet parts (some ptr) = still_running
follow (suc fuel) packet parts (some ptr) =
    let next : Name → Followed = λ n. follow fuel packet (parts ++ listed n.value) n.ptr in
    elim (dns_string (drop ptr packet)) [
      | none ↦ out_of_range
      | some n ↦ if ltb 500 (total (parts ++ listed n.value)) then too_long else next n
    ]

-- The bytes read and how the pointers end, on fuel; `none` is an IndexError at the start.
unfoldable pub dns_to_string_info : ℕ → Text → Text → Option (Option ℕ × Followed)
dns_to_string_info fuel s packet = elim (dns_string s) [
  | none ↦ none
  | some n ↦ some (n.bytes_read, follow fuel packet (listed n.value) n.ptr)
]
