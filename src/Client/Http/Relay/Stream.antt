-- ===== src/Client/Http/Relay/Stream.antt =====
-- Every turn of the loop keeps the bytes that it was sent.
use exaproxy.Common.{
  ℕ, ◌-◌, ◌≡◌, ◌∙◌, ap, sym, subst, refl, inl, inr, min, Bool, true, false, not, ◌⊎◌, nat_beq_iff,
  ◌&&◌, ◌||◌, Option, none, some, [], ◌∷◌, ◌++◌, if◌then◌else◌, length, take, drop, number_key,
  ◌==◌, arith, Bool-cases, take-append-drop,
}
use mathlib.Core.List.{append-nil}
use exaproxy.Client.Http.{
  Text, is_empty, starts_with, Checked, too_long, unfinished, request, check_request,
  check_chunk_size,
}
use exaproxy.Client.Http.Search.{check_request-Joins}
use exaproxy.Client.Http.Relay.{
  Mode, http, new_request, passthrough, transfer, chunked, end_chunk, extra_headers, Reader,
  Processed, transferred, transfer_data, measured, chunked_data, end_of_chunks, with_headers,
  header_data, Yielded, gives_request, gives_data, gives_nothing, ended, needs_recv, lstrip,
  answer_request, search_request, answer_data, answer_process, raised, serve, serve_as, turn,
}

abbrev pub is_blank : Text → Bool
is_blank [] = true
is_blank (x ∷ xs) = (x == 13 || x == 10) && is_blank xs

-- Ends of line are taken away only before a request.
abbrev pub strips : Mode → Bool
strips http = true
strips new_request = true
strips passthrough = false
strips transfer = false
strips chunked = false
strips end_chunk = false
strips extra_headers = false

-- The text that is given and the buffer make up the bytes there were, but for ends of line before a request.
abbrev pub Holds : Mode → Text → Text → Reader → Type 0
Holds m bytes given r =
    (blank : Text) × (is_blank blank ≡ true)
    × (strips m ≡ false → blank ≡ [])
    × (blank ++ (given ++ r.r_buffer) ≡ bytes)

-- A turn that raises is one at the end of chunks, with a carriage return at most after them.
abbrev pub Keeps : Mode → Text → Yielded × Reader → Type 0
Keeps m bytes (gives_request text, r) = Holds m bytes text r
Keeps m bytes (gives_data text, r) = Holds m bytes text r
Keeps m bytes (gives_nothing, r) = Holds m bytes [] r
Keeps m bytes (ended, r) = true ≡ true
Keeps m bytes (raised, r) =
    (m ≡ end_chunk)
    × ((drop r.nb_to_send r.r_buffer ≡ []) ⊎ (drop r.nb_to_send r.r_buffer ≡ 13 ∷ []))
    × (r.r_buffer ≡ bytes)

abbrev KeepsData : Text → Processed → Type 0
KeepsData bytes (none, r) = true ≡ true
KeepsData bytes (some given, r) = given ++ r.r_buffer ≡ bytes

transfer_data-keeps : (r : Reader) → KeepsData r.r_buffer (transfer_data r)
unfolding transfer_data transferred
transfer_data-keeps r =
    let len = min (length r.r_buffer) r.nb_to_send in
    elim (Bool-cases (r.nb_to_send - len == 0)) [
      | inl last ↦ rw (last, transfer_data) (take-append-drop len r.r_buffer)
      | inr further ↦ rw (further, transfer_data) (take-append-drop len r.r_buffer)
    ]

measured-keeps :
    (bytes : Text) (n : Reader) (p : Bool × Option ℕ) (all : Text)
    → bytes ++ n.r_buffer ≡ all
    → KeepsData all (measured bytes n p)
measured-keeps bytes n (more, none) all h = refl
measured-keeps bytes n (more, some s) all h = h

-- What follows the chunks, where it is no end of line and no header.
no_more :
    (text : Text)
    → starts_with (10 ∷ []) text ≡ false
    → (not (is_empty text) && not (starts_with (13 ∷ []) text && length text == 1)) ≡ false
    → (text ≡ []) ⊎ (text ≡ 13 ∷ [])
unfolding starts_with
no_more [] h k = inl refl
no_more (x ∷ []) h k = inr (ground (arith, nat_beq_iff 13 x))
no_more (x ∷ y ∷ text) h k = absurd (ground arith)

end_of_chunks-Keeps : (r : Reader) → Keeps end_chunk r.r_buffer (answer_process r (end_of_chunks r))
unfolding end_of_chunks
end_of_chunks-Keeps r =
    let text = drop r.nb_to_send r.r_buffer in
    elim (Bool-cases (starts_with (13 ∷ 10 ∷ []) text)) [
      | inl pair ↦ rw pair ([], refl, λ k. refl, refl)
      | inr unpaired ↦ elim (Bool-cases (starts_with (10 ∷ []) text)) [
        | inl line ↦ rw (unpaired, line) ([], refl, λ k. refl, refl)
        | inr other ↦
            elim (Bool-cases
              (not (is_empty text) && not (starts_with (13 ∷ []) text && length text == 1))) [
                | inl headers ↦ rw (unpaired, other, headers) ([], refl, λ k. refl, refl)
                | inr few ↦ rw (unpaired, other, few) (refl, no_more text other few, refl)
              ]
      ]
    ]

with_headers-keeps :
    (r : Reader) (c : Checked)
    → ((text rest : Text) (s : ℕ) → c ≡ request text rest s → text ++ rest ≡ r.r_buffer)
    → KeepsData r.r_buffer (with_headers r c)
with_headers-keeps r too_long h = refl
with_headers-keeps r (unfinished s) h = refl
with_headers-keeps r (request text rest s) h = h text rest s refl

header_data-keeps : (max_buffer : ℕ) (r : Reader) → KeepsData r.r_buffer (header_data max_buffer r)
unfolding header_data
header_data-keeps max_buffer r =
    with_headers-keeps r (check_request r.r_buffer max_buffer r.seek)
      (λ text rest s h. (check_request-Joins r.r_buffer max_buffer r.seek text rest s h).0)

lstrip-blank :
    (text : Text) → (blank : Text) × (is_blank blank ≡ true) × (blank ++ lstrip text ≡ text)
unfolding lstrip
lstrip-blank [] = ([], refl, refl)
lstrip-blank (x ∷ xs) = elim (Bool-cases (x == 13 || x == 10)) [
  | inl blank ↦
      (let (pre, h, e) = lstrip-blank xs in
        rw (blank, lstrip) (x ∷ pre, ground arith, ap (λ l. x ∷ l) e))
  | inr letter ↦ rw (letter, lstrip) ([], refl, refl)
]

chunked_data-keeps : (r : Reader) → KeepsData r.r_buffer (chunked_data r)
unfolding chunked_data transferred
chunked_data-keeps r =
    let len = min (length r.r_buffer) r.nb_to_send in
    let n = (transferred r).1 in
    measured-keeps (take len r.r_buffer) n (check_chunk_size (drop n.nb_to_send n.r_buffer))
      r.r_buffer (take-append-drop len r.r_buffer)

answer_data-Keeps :
    (m : Mode) (bytes : Text) (p : Processed) → KeepsData bytes p → Keeps m bytes (answer_data p)
answer_data-Keeps m bytes (none, r) k = refl
answer_data-Keeps m bytes (some [], r) k = ([], refl, λ h. refl, k)
answer_data-Keeps m bytes (some (x ∷ xs), r) k = ([], refl, λ h. refl, k)

answer_request-Keeps :
    (m : Mode) (bytes : Text) (r : Reader) (c : Checked)
    → Holds m bytes [] r
    → ((text rest : Text) (s : ℕ) → c ≡ request text rest s → text ++ rest ≡ r.r_buffer)
    → Keeps m bytes (answer_request r c)
answer_request-Keeps m bytes r too_long k h = refl
answer_request-Keeps m bytes r (unfinished s) k h = k
answer_request-Keeps m bytes r (request text rest s) (blank, b, strict, e) h =
    (blank, b, strict, ap (λ l. blank ++ l) (h text rest s refl) ∙ e)

search_request-Keeps :
    (m : Mode) (max_buffer : ℕ) (r : Reader)
    → strips m ≡ true
    → Keeps m r.r_buffer (search_request max_buffer r)
search_request-Keeps m max_buffer r strips_ends =
    let stripped = record r { mode = http; r_buffer = lstrip r.r_buffer } in
    let (blank, b, e) = lstrip-blank r.r_buffer in
    answer_request-Keeps m r.r_buffer stripped (check_request stripped.r_buffer max_buffer r.seek)
      (blank, b, (λ never. absurd cc), e)
      (λ text rest s h. (check_request-Joins stripped.r_buffer max_buffer r.seek text rest s h).0)

serve_as-Keeps :
    (max_buffer : ℕ) (m : Mode) (r : Reader) → Keeps m r.r_buffer (serve_as max_buffer m r)
serve_as-Keeps max_buffer http r = search_request-Keeps http max_buffer r refl
serve_as-Keeps max_buffer new_request r = search_request-Keeps new_request max_buffer r refl
serve_as-Keeps max_buffer passthrough r =
    answer_data-Keeps passthrough r.r_buffer
      (some r.r_buffer, record r { r_buffer = []; nb_to_send = 0; seek = 0 })
      (append-nil r.r_buffer)
serve_as-Keeps max_buffer transfer r =
    answer_data-Keeps transfer r.r_buffer (transfer_data r) (transfer_data-keeps r)
serve_as-Keeps max_buffer chunked r =
    answer_data-Keeps chunked r.r_buffer (chunked_data r) (chunked_data-keeps r)
serve_as-Keeps max_buffer end_chunk r = end_of_chunks-Keeps r
serve_as-Keeps max_buffer extra_headers r =
    answer_data-Keeps extra_headers r.r_buffer (header_data max_buffer r)
      (header_data-keeps max_buffer r)

-- No byte is lost or made up: what a turn gives and what it leaves in the buffer are what was in the
-- buffer and what was read, in order. Only where a request is searched may ends of line in front be
-- missing; within a body, of a length or in chunks, or passed through, none is. The exceptions are a turn
-- that ends the client, and one that raises, which has no more than a carriage return after the chunks.
pub turn-Keeps :
    (max_buffer : ℕ) (new_data : Text) (r : Reader)
    → Keeps r.mode
        (r.r_buffer ++ (if needs_recv r then new_data else []))
        (turn max_buffer new_data r)
unfolding turn
turn-Keeps max_buffer new_data r = elim (Bool-cases (needs_recv r)) [
  | inl reads ↦ elim (Bool-cases (is_empty new_data)) [
    | inl over ↦ rw (reads, over, turn) refl
    | inr more ↦
        rw (reads, more, turn)
          (serve_as-Keeps max_buffer r.mode (record r { r_buffer = r.r_buffer ++ new_data }))
  ]
  | inr kept ↦
      rw (kept, turn)
        (subst (λ bytes. Keeps r.mode bytes (serve max_buffer r)) (sym (append-nil r.r_buffer))
          (serve_as-Keeps max_buffer r.mode r))
]
