-- ===== src/Client/Http/Relay/Bodies.antt =====
-- Bodies: of a known length, and in chunks.
use exaproxy.Common.{
  ℕ, ◌+◌, ◌-◌, ◌<◌, ◌≡◌, ◌∙◌, ap, sym, subst, refl, inl, inr, min, Bool, true, false, some, List,
  [], ◌∷◌, ◌++◌, if◌then◌else◌, length, take, drop, ltb, number_key, ◌==◌, arith, Bool-cases,
  length-take, length-append, drop-append,
}
use mathlib.Core.List.{append_assoc}
use exaproxy.Client.Http.{Text, is_empty, is_hex, int16, starts_with, check_chunk_size}
use exaproxy.Client.Http.Chunks.{
  Chunk, AllChunks, printed, header_of, end_of_line, end_of_line_some, length-printed_le,
  check_chunk_size-printed,
}
use exaproxy.Client.Http.Relay.{
  Mode, new_request, transfer, chunked, end_chunk, Reader, Processed, transferred, transfer_data,
  measured, chunked_data, end_of_chunks, Yielded, gives_data, gives_nothing, needs_recv,
  answer_data, serve_as, turn,
}

-- the bytes that a turn has before it
abbrev pub fresh : Text → Reader → Text
fresh new_data r = r.r_buffer ++ (if needs_recv r then new_data else [])

abbrev pub after_body : ℕ → Mode
after_body left = if left == 0 then new_request else transfer

abbrev pub GivesSome : ℕ → Yielded × Reader → Type 0
GivesSome nb p =
    (d : Text) × (n : Reader) × (p ≡ (gives_data d, n))
    × (0 < length d)
    × (length d + n.nb_to_send ≡ nb)
    × (n.mode ≡ after_body n.nb_to_send)

answer_some : (d : Text) (n : Reader) → 0 < length d → answer_data (some d, n) ≡ (gives_data d, n)
answer_some [] n h = absurd (omega arith)
answer_some (x ∷ xs) n h = refl

filled_some : (b : Text) → is_empty b ≡ false → 0 < length b
filled_some [] h = absurd cc
filled_some (x ∷ xs) h = omega arith

served :
    (max_buffer : ℕ) (r : Reader)
    → r.mode ≡ transfer
    → 0 < r.nb_to_send
    → is_empty r.r_buffer ≡ false
    → GivesSome r.nb_to_send (serve_as max_buffer transfer r)
unfolding transfer_data transferred
served max_buffer r mode positive filled =
    let len = min (length r.r_buffer) r.nb_to_send in
    let d = take len r.r_buffer in
    let n = (transfer_data r).1 in
    let some_bytes = filled_some r.r_buffer filled in
    let size : length d ≡ len = length-take len r.r_buffer (omega arith) in
    let left : n.nb_to_send ≡ r.nb_to_send - len = ground arith in
    (d, n, answer_some d n (omega arith), omega arith, omega arith, ground (arith, mode))

needs_transfer : (r : Reader) → r.mode ≡ transfer → needs_recv r ≡ is_empty r.r_buffer
unfolding needs_recv
needs_transfer r mode = rw (mode, needs_recv) refl

emptied : (b new : Text) → is_empty b ≡ true → is_empty (b ++ new) ≡ false → is_empty new ≡ false
emptied [] new h k = k
emptied (x ∷ b) new h k = absurd cc

-- A turn in a body of known length, with bytes to give, gives some of them and no more than are left of
-- it; the next request is searched once none are.
pub turn-GivesSome :
    (max_buffer : ℕ) (new_data : Text) (r : Reader)
    → r.mode ≡ transfer
    → 0 < r.nb_to_send
    → is_empty (fresh new_data r) ≡ false
    → GivesSome r.nb_to_send (turn max_buffer new_data r)
unfolding turn needs_recv
turn-GivesSome max_buffer new_data r mode positive filled =
    elim (Bool-cases (is_empty r.r_buffer)) [
      | inl none_left ↦
          let reads : needs_recv r ≡ true = needs_transfer r mode ∙ none_left in
          let more : is_empty (r.r_buffer ++ new_data) ≡ false =
            subst (λ b. is_empty (r.r_buffer ++ (if b then new_data else [])) ≡ false) reads
              filled in
          let some_new : is_empty new_data ≡ false = emptied r.r_buffer new_data none_left more in
          rw (reads, some_new, mode, turn)
            (served max_buffer (record r { mode = transfer; r_buffer = r.r_buffer ++ new_data })
              refl positive more)
      | inr some_left ↦
          let kept : needs_recv r ≡ false = needs_transfer r mode ∙ some_left in
          rw (kept, mode, turn)
            (served max_buffer (record r { mode = transfer }) refl positive some_left)
    ]

-- the reader that expects the first chunk
abbrev pub expecting : Reader
expecting = record { mode = chunked; r_buffer = []; nb_to_send = 0; seek = 0 }

abbrev pub in_chunks : List Chunk → Text → Bool → Text
in_chunks cs digits crlf = printed cs (digits ++ (end_of_line crlf ++ (13 ∷ 10 ∷ [])))

abbrev holding : Text → Reader
holding body = record { mode = chunked; r_buffer = body; nb_to_send = 0; seek = 0 }

transferred_none : (body : Text) → transferred (holding body) ≡ ([], holding body)
unfolding transferred
transferred_none body =
    ap
      (λ (len : ℕ). (
        take len body,
        record { mode = chunked; r_buffer = drop len body; nb_to_send = 0 - len; seek = 0 },
      ))
      {x = min (length body) 0} {y = 0} (omega arith)

abbrev measured_as : Text → ℕ → Bool → Processed
measured_as body n more = (
  some [],
  record {
    mode = if more then end_chunk else new_request;
    r_buffer = body;
    nb_to_send = n;
    seek = 0;
  },
)

measured_all :
    (body : Text) (size : ℕ)
    → 0 < size
    → measured [] (holding body) (false, some size)
      ≡ (some [], record { mode = end_chunk; r_buffer = body; nb_to_send = size; seek = 0 })
measured_all body size positive =
    let sum : 0 + size ≡ size = omega arith in
    let more : ltb 0 size ≡ true = ground arith in
    ap (λ (n : ℕ). measured_as body n (ltb 0 n)) sum ∙ ap (measured_as body size) more

turn_whole :
    (max_buffer size x : ℕ) (xs : Text)
    → check_chunk_size (x ∷ xs) ≡ (false, some size)
    → 0 < size
    → turn max_buffer (x ∷ xs) expecting
      ≡ (gives_nothing, record { mode = end_chunk; r_buffer = x ∷ xs; nb_to_send = size; seek = 0 })
unfolding turn needs_recv chunked_data
turn_whole max_buffer size x xs h positive = ap answer_data (
    ap (λ p. measured p.0 p.1 (check_chunk_size (drop p.1.nb_to_send p.1.r_buffer)))
      (transferred_none (x ∷ xs))
    ∙ ap (measured [] (holding (x ∷ xs))) h
    ∙ measured_all (x ∷ xs) size positive)

turn_end :
    (max_buffer size y : ℕ) (body ys : Text)
    → starts_with (13 ∷ 10 ∷ []) (drop size (body ++ y ∷ ys)) ≡ true
    → turn max_buffer
        (y ∷ ys)
        (record { mode = end_chunk; r_buffer = body; nb_to_send = size; seek = 0 })
      ≡ (
        gives_nothing,
        record { mode = new_request; r_buffer = body ++ y ∷ ys; nb_to_send = size + 2; seek = 0 },
      )
unfolding turn needs_recv end_of_chunks
turn_end max_buffer size y body ys h = rw (h, turn, end_of_chunks) refl

whole :
    (max_buffer size : ℕ) (body : Text)
    → check_chunk_size body ≡ (false, some size)
    → 0 < size
    → 0 < length body
    → turn max_buffer body expecting
      ≡ (gives_nothing, record { mode = end_chunk; r_buffer = body; nb_to_send = size; seek = 0 })
whole max_buffer size [] h positive filled = absurd (omega arith)
whole max_buffer size (x ∷ xs) h positive filled = turn_whole max_buffer size x xs h positive

printed-append : (cs : List Chunk) (a b : Text) → printed cs (a ++ b) ≡ printed cs a ++ b
printed-append [] a b = refl
printed-append (c ∷ cs) a b =
    let e = end_of_line c.crlf in
    let p = printed cs a in
    ap (λ l. c.digits ++ (e ++ (c.body ++ (e ++ l)))) (printed-append cs a b)
    ∙ ap (λ l. c.digits ++ (e ++ (c.body ++ l))) (sym (append_assoc e p b))
    ∙ ap (λ l. c.digits ++ (e ++ l)) (sym (append_assoc c.body (e ++ p) b))
    ∙ ap (λ l. c.digits ++ l) (sym (append_assoc e (c.body ++ (e ++ p)) b))
    ∙ sym (append_assoc c.digits (e ++ (c.body ++ (e ++ p))) b)

starts : (y : ℕ) (ys : Text) → starts_with (13 ∷ 10 ∷ []) (13 ∷ 10 ∷ y ∷ ys) ≡ true
unfolding starts_with
starts y ys = refl

-- A body in chunks that comes in one read, up to the blank line after its last, is given to
-- nobody: its turn gives nothing, the next turn, which reads again, gives nothing either, and the
-- next request is then searched in the body itself.
pub chunked_misread :
    (max_buffer : ℕ) (cs : List Chunk) (digits : Text) (crlf : Bool) (y : ℕ) (ys : Text)
    → AllChunks cs
    → is_hex digits ≡ true
    → int16 0 digits ≡ 0
    → (turn max_buffer (in_chunks cs digits crlf) expecting).0 ≡ gives_nothing
      × (turn max_buffer (y ∷ ys) (turn max_buffer (in_chunks cs digits crlf) expecting).1 ≡ (
        gives_nothing,
        record {
          mode = new_request;
          r_buffer = in_chunks cs digits crlf ++ y ∷ ys;
          nb_to_send = length (printed cs (header_of digits crlf)) + 2;
          seek = 0;
        },
      ))
chunked_misread max_buffer cs digits crlf y ys valid hex last =
    let body = in_chunks cs digits crlf in
    let head = printed cs (header_of digits crlf) in
    let size = length head in
    let split : body ≡ head ++ (13 ∷ 10 ∷ []) =
      ap (printed cs) (sym (append_assoc digits (end_of_line crlf) (13 ∷ 10 ∷ [])))
      ∙ printed-append cs (header_of digits crlf) (13 ∷ 10 ∷ []) in
    let first =
      whole max_buffer size body
        (check_chunk_size-printed cs digits crlf (13 ∷ 10 ∷ []) valid hex last)
        (omega (
          arith,
          length-printed_le cs (header_of digits crlf),
          length-append digits (end_of_line crlf),
          end_of_line_some crlf,
        ))
        (omega (arith, ap length split, length-append head (13 ∷ 10 ∷ []))) in
    let ended_here : drop size (body ++ y ∷ ys) ≡ 13 ∷ 10 ∷ y ∷ ys =
      ap (λ l. drop size (l ++ y ∷ ys)) split
      ∙ ap (drop size) (append_assoc head (13 ∷ 10 ∷ []) (y ∷ ys))
      ∙ drop-append head (13 ∷ 10 ∷ y ∷ ys) in
    (
      ap (λ p. p.0) first,
      ap (λ p. turn max_buffer (y ∷ ys) p.1) first
          ∙ turn_end max_buffer size y body ys
              (ap (starts_with (13 ∷ 10 ∷ [])) ended_here ∙ starts y ys),
    )
