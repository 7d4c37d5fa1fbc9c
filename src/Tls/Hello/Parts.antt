-- ===== src/Tls/Hello/Parts.antt =====
-- A client hello written out part by part, and reading each part back.
use exaproxy.Common.{
  ℕ, zero, suc, ◌+◌, ◌-◌, ◌/◌, ◌%◌, ◌≤◌, ◌<◌, ◌≡◌, ◌∙◌, ap, refl, false, some, List, [], ◌∷◌, ◌++◌,
  length, take, drop, number_key, ◌==◌, arith, length-append, nat_beq_iff,
}
use exaproxy.Tls.Hello.{Bytes, hostname, short, names, extension}

abbrev pub u16 : ℕ → Bytes
u16 n = n / 256 ∷ n % 256 ∷ []

pub short-u16 : (n : ℕ) → short (u16 n) ≡ some n
unfolding short
short-u16 n = ap some (omega arith)

-- a part of known length is skipped, or read
pub skip : (n : ℕ) (xs ys : Bytes) → n ≡ length xs → drop n (xs ++ ys) ≡ ys
skip zero [] ys h = refl
skip zero (x ∷ xs) ys h = absurd (omega arith)
skip (suc n) [] ys h = absurd (omega arith)
skip (suc n) (x ∷ xs) ys h = skip n xs ys (omega arith)

pub read : (n : ℕ) (xs ys : Bytes) → n ≡ length xs → take n (xs ++ ys) ≡ xs
read zero [] ys h = refl
read zero (x ∷ xs) ys h = absurd (omega arith)
read (suc n) [] ys h = absurd (omega arith)
read (suc n) (x ∷ xs) ys h = rw (read n xs ys (omega arith))

pub take_all : (n : ℕ) (xs : Bytes) → length xs ≤ n → take n xs ≡ xs
take_all zero [] h = refl
take_all zero (x ∷ xs) h = absurd (omega arith)
take_all (suc n) [] h = refl
take_all (suc n) (x ∷ xs) h = rw (take_all n xs (omega arith))

-- An entry of a list of names, and an extension: a kind, a length and that many bytes.
abbrev pub entry : ℕ → Bytes → Bytes
entry kind body = kind ∷ (u16 (length body) ++ body)

abbrev pub extension_of : ℕ → Bytes → Bytes
extension_of kind body = u16 kind ++ u16 (length body) ++ body

-- an entry or an extension of another kind than 0, which is the number after `before`
pub record Other : Type 0 where
  pub before : ℕ
  pub body : Bytes

kind-IsOther : (k : ℕ) → (suc k == 0) ≡ false
kind-IsOther k = ground (arith, nat_beq_iff (suc k) 0)

abbrev pub entries : List Other → Bytes → Bytes
entries [] rest = rest
entries (o ∷ os) rest = entry (suc o.before) o.body ++ entries os rest

abbrev pub extensions : List Other → Bytes → Bytes
extensions [] rest = rest
extensions (o ∷ os) rest = extension_of (suc o.before) o.body ++ extensions os rest

pub length-entries :
    (os : List Other) (rest : Bytes) → length os + length rest ≤ length (entries os rest)
length-entries [] rest = omega arith
length-entries (o ∷ os) rest =
    omega (arith, length-entries os rest, length-append o.body (entries os rest))

pub length-extensions :
    (os : List Other) (rest : Bytes) → length os + length rest ≤ length (extensions os rest)
length-extensions [] rest = omega arith
length-extensions (o ∷ os) rest =
    omega (arith, length-extensions os rest, length-append o.body (extensions os rest))

pub names-entries :
    (fuel : ℕ) (os : List Other) (name rest : Bytes)
    → length os < fuel
    → names fuel (entries os (entry 0 name ++ rest)) ≡ hostname name
unfolding names
names-entries zero os name rest h = absurd (omega arith)
names-entries (suc fuel) [] name rest h =
    rw (short-u16 (length name), names) (ap hostname (read (length name) name rest refl))
names-entries (suc fuel) (o ∷ os) name rest h =
    rw (short-u16 (length o.body), kind-IsOther o.before, names)
      (ap (names fuel) (
          skip (length o.body + 3) (entry (suc o.before) o.body) (entries os (entry 0 name ++ rest))
            (omega arith))
        ∙ names-entries fuel os name rest (omega arith))

pub extension-extensions :
    (fuel : ℕ) (os : List Other) (a b : ℕ) (body rest : Bytes)
    → length os < fuel
    → extension fuel (extensions os (extension_of 0 (a ∷ b ∷ body) ++ rest)) ≡ some body
unfolding extension
extension-extensions zero os a b body rest h = absurd (omega arith)
extension-extensions (suc fuel) [] a b body rest h =
    rw (short-u16 (suc (suc (length body))), short-u16 0, extension)
      (ap some (read (suc (suc (length body)) + 4 - 6) body rest (omega arith)))
extension-extensions (suc fuel) (o ∷ os) a b body rest h =
    rw (short-u16 (length o.body), short-u16 (suc o.before), kind-IsOther o.before, extension)
      (ap (extension fuel) (
          skip (length o.body + 4) (extension_of (suc o.before) o.body)
            (extensions os (extension_of 0 (a ∷ b ∷ body) ++ rest)) (omega arith))
        ∙ extension-extensions fuel os a b body rest (omega arith))
