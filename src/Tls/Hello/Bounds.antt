-- ===== src/Tls/Hello/Bounds.antt =====
-- Where `parse_hello` ends: the fuel of its loops is enough, and a hello that is cut off.
use mathlib.Core.List.{append-nil}
use exaproxy.Common.{
  ℕ, zero, suc, ◌+◌, ◌-◌, ◌≤◌, ◌≡◌, ◌∙◌, ap, sym, refl, Option, none, some, [], ◌∷◌, ◌++◌,
  if◌then◌else◌, length, take, drop, number_key, ◌==◌, arith, length-append, length-drop,
}
use exaproxy.Tls.Hello.{
  Bytes, Parsed, hostname, struct_error, byte, short, names, extension, with_short, from_ciphers,
  from_session, from_handshake, parse_hello,
}
use exaproxy.Tls.Hello.Parts.{skip, take_all}
use exaproxy.Tls.Hello.RoundTrip.{parse_hello-record}

-- Any fuel that is not less than the length gives the same answer.
pub names_enough :
    (f g : ℕ) (hello : Bytes) → length hello ≤ f → length hello ≤ g → names f hello ≡ names g hello
unfolding names
names_enough zero zero hello h k = refl
names_enough zero (suc g) [] h k = refl
names_enough zero (suc g) (x ∷ hello) h k = absurd (omega arith)
names_enough (suc f) zero [] h k = refl
names_enough (suc f) zero (x ∷ hello) h k = absurd (omega arith)
names_enough (suc f) (suc g) [] h k = refl
names_enough (suc f) (suc g) (x ∷ hello) h k =
    ap
      (λ (next : ℕ → Parsed).
        with_short (short (take 2 hello))
          (λ size. if x == 0 then hostname (take size (drop 2 hello)) else next size))
      (λ i size.
        names_enough f g (drop (size + 3) (x ∷ hello))
          (omega (arith, length-drop (size + 3) (x ∷ hello)))
          (omega (arith, length-drop (size + 3) (x ∷ hello))) i)

-- The loop over the extensions has fuel to spare: any that is not less than the length of what it reads
-- gives the same answer.
pub extension_enough :
    (f g : ℕ) (hello : Bytes)
    → length hello ≤ f
    → length hello ≤ g
    → extension f hello ≡ extension g hello
unfolding extension
extension_enough zero zero hello h k = refl
extension_enough zero (suc g) [] h k = refl
extension_enough zero (suc g) (x ∷ hello) h k = absurd (omega arith)
extension_enough (suc f) zero [] h k = refl
extension_enough (suc f) zero (x ∷ hello) h k = absurd (omega arith)
extension_enough (suc f) (suc g) [] h k = refl
extension_enough (suc f) (suc g) (x ∷ hello) h k =
    ap
      (λ (next : ℕ → Option Bytes).
        elim (short (take 2 (drop 2 (x ∷ hello)))) as (λ _. Option Bytes) [
          | none ↦ none
          | some size ↦ elim (short (take 2 (x ∷ hello))) as (λ _. Option Bytes) [
            | none ↦ none
            | some kind ↦
                if kind == 0 then some (take (size + 4 - 6) (drop 6 (x ∷ hello))) else next size
          ]
        ])
      (λ i size.
        extension_enough f g (drop (size + 4) (x ∷ hello))
          (omega (arith, length-drop (size + 4) (x ∷ hello)))
          (omega (arith, length-drop (size + 4) (x ∷ hello))) i)

-- A hello that ends after the session id raises a struct.error, which nothing catches.
pub parse_hello_truncated :
    (minor high low size : ℕ) (opening session : Bytes)
    → short (high ∷ low ∷ []) ≡ some size
    → length opening ≡ 37
    → length session + 39 ≤ size + 5
    → parse_hello (0x16 ∷ 3 ∷ minor ∷ high ∷ low ∷ 1 ∷ (opening ++ length session ∷ session))
      ≡ struct_error
unfolding short byte
parse_hello_truncated minor high low size opening session read long fits =
    let rest = opening ++ length session ∷ session in
    parse_hello-record minor high low size 1 rest read
    ∙ ap from_handshake (
        take_all (size + 5) (1 ∷ rest)
          (omega (arith, length-append opening (length session ∷ session))))
    ∙ ap from_session (skip 38 (1 ∷ opening) (length session ∷ session) (omega arith))
    ∙ ap from_ciphers (
        ap (drop (length session + 1)) (sym (append-nil (length session ∷ session)))
        ∙ skip (length session + 1) (length session ∷ session) [] (omega arith))
