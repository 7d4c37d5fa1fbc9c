-- ===== src/Client/Writer/Closing.antt =====
-- A writer that was told to close ends when its buffer has been sent.
use mathlib.Core.List.{append-nil}
use exaproxy.Common.{
  ℕ, ◌+◌, ◌<◌, ◌≡◌, refl, ap, Bool, true, ◌||◌, Option, some, List, [], ◌∷◌, ◌++◌, take, drop,
  take-append-drop, if◌then◌else◌, arith, length, length-drop,
}
use exaproxy.Client.Writer.{
  Bytes, Writer, looping, stopping, Sent, took, wrote, write_turn, wrote_bytes, with_data,
  is_filled,
}
use exaproxy.Client.Writer.Stream.{converse}

abbrev pub told_to_close : Bytes → Writer
told_to_close w_buffer = record { w_buffer = w_buffer; finished = true; phase = looping }

-- Turns without new data, with the number of bytes that the socket takes in each.
abbrev pub flushes : List ℕ → List (Option Bytes × Sent)
flushes [] = []
flushes (n ∷ counts) = (some [], took n) ∷ flushes counts

abbrev pub AllPositive : List ℕ → Type 0
AllPositive [] = Unit
AllPositive (n ∷ counts) = (0 < n) × AllPositive counts

flush_turn :
    (ipv4 : Bool) (n x : ℕ) (xs : Bytes)
    → (a b : Bool) × (s4 s6 : ℕ) × (write_turn ipv4 (took n) (some []) (told_to_close (x ∷ xs))
        ≡ some (wrote a b s4 s6, told_to_close (drop n (x ∷ xs))))
      × (s4 + s6 ≡ n)
unfolding write_turn
flush_turn ipv4 n x xs = (
  is_filled (drop n (x ∷ xs)) || true,
  true,
  (if ipv4 then n else 0),
  (if ipv4 then 0 else n),
  ap (λ (l : Bytes). wrote_bytes ipv4 true true n (drop n (x ∷ l))) (append-nil xs),
  ground arith,
)

converse_turn :
    (ipv4 : Bool) (extra : Option Bytes) (answer : Sent) (rest : List (Option Bytes × Sent))
    (w v : Writer) (a b : Bool) (s4 s6 : ℕ) (r : Bytes × Writer)
    → write_turn ipv4 answer extra w ≡ some (wrote a b s4 s6, v)
    → converse ipv4 rest v ≡ some r
    → converse ipv4 ((extra, answer) ∷ rest) w
      ≡ some (take (s4 + s6) (with_data w.w_buffer extra) ++ r.0, r.1)
unfolding converse
converse_turn ipv4 extra answer rest w v a b s4 s6 r turned went = rw (turned, went, converse) refl

-- A writer that was told to close sends its whole buffer and ends, where it is asked to flush often
-- enough and the socket takes at least one byte each time.
pub converse-flushes :
    (ipv4 : Bool) (counts : List ℕ) (buffer : Bytes)
    → AllPositive counts
    → length buffer < length counts
    → (r : Bytes × Writer) × (converse ipv4 (flushes counts) (told_to_close buffer) ≡ some r)
      × (r.0 ≡ buffer)
      × (r.1.w_buffer ≡ [])
      × (r.1.phase ≡ stopping)
unfolding converse write_turn
converse-flushes ipv4 [] buffer some_bytes enough = absurd (omega arith)
converse-flushes ipv4 (n ∷ counts) [] some_bytes enough =
    (([], record { w_buffer = []; finished = true; phase = stopping }), refl, refl, refl, refl)
converse-flushes ipv4 (n ∷ counts) (x ∷ xs) (takes, some_bytes) enough =
    let (a, b, s4, s6, turned, sent) = flush_turn ipv4 n x xs in
    let left : Bytes = drop n (x ∷ xs) in
    let (r, went, all, emptied, ended) =
      converse-flushes ipv4 counts left some_bytes (omega (arith, length-drop n (x ∷ xs))) in
    (
      (take (s4 + s6) (with_data (x ∷ xs) (some [])) ++ r.0, r.1),
      converse_turn ipv4 (some []) (took n) (flushes counts) (told_to_close (x ∷ xs))
          (told_to_close left) a b s4 s6 r turned went,
      (rw (sent, all, append-nil xs) (take-append-drop n (x ∷ xs))),
      emptied,
      ended,
    )
