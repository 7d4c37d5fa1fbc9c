-- ===== src/Client/Writer/Stream.antt =====
-- What the client receives is what was written to it, in order.
use mathlib.Core.List.{append_assoc, append-nil}
use exaproxy.Common.{
  ℕ, ◌+◌, ◌≡◌, refl, sym, ap, ◌∙◌, Bool, false, not, ◌&&◌, ◌||◌, Option, none, some, List, [], ◌∷◌,
  ◌++◌, take, drop, take-append-drop, if◌then◌else◌, arith, Bool-cases, inl, inr,
}
use exaproxy.Client.Writer.{
  Bytes, Writer, looping, stopping, Sent, took, would_block, failed, nothing, wrote, Turn,
  with_data, is_filled, is_close, is_flush, wrote_bytes, send_buffer, loop_turn, write_turn,
}

-- A turn ends the connection with the buffer as it is, or it splits the buffer into the bytes that it
-- says it has sent and those that it keeps.
pub data IsTurn (buffer : Bytes) : Turn → Type 0 where
  stops :
      (v : Writer) → v.w_buffer ≡ buffer → v.phase ≡ stopping → IsTurn buffer (some (nothing, v))
  splits :
      (buffered had_buffer : Bool) (sent4 sent6 : ℕ) (v : Writer)
      → take (sent4 + sent6) buffer ++ v.w_buffer ≡ buffer
      → v.phase ≡ looping
      → IsTurn buffer (some (wrote buffered had_buffer sent4 sent6, v))

unfilled :
    (buffer : Bytes) (extra : Option Bytes)
    → is_filled (with_data buffer extra) ≡ false
    → buffer ≡ with_data buffer extra
unfilled [] none h = refl
unfilled [] (some []) h = refl
unfilled [] (some (x ∷ xs)) h = absurd cc
unfilled (x ∷ xs) none h = refl
unfilled (x ∷ xs) (some extra) h = absurd cc

module _ (ipv4 : Bool) where
  wrote_bytes-IsTurn :
      (finished had_buffer : Bool) (sent : ℕ) (buffer : Bytes)
      → IsTurn buffer (wrote_bytes ipv4 finished had_buffer sent (drop sent buffer))
  wrote_bytes-IsTurn finished had_buffer sent buffer =
      let all : (if ipv4 then sent else 0) + (if ipv4 then 0 else sent) ≡ sent = ground arith in
      splits _ _ _ _ _ (rw all (take-append-drop sent buffer)) refl

  send_buffer-IsTurn :
      (finished had_buffer : Bool) (buffer : Bytes) (answer : Sent)
      → IsTurn buffer (send_buffer ipv4 finished had_buffer buffer answer)
  send_buffer-IsTurn finished had_buffer buffer (took sent) =
      wrote_bytes-IsTurn finished had_buffer sent buffer
  send_buffer-IsTurn finished had_buffer buffer would_block =
      wrote_bytes-IsTurn finished had_buffer 0 buffer
  send_buffer-IsTurn finished had_buffer buffer failed = stops _ refl refl

  loop_turn-IsTurn :
      (answer : Sent) (extra : Option Bytes) (w : Writer)
      → IsTurn (with_data w.w_buffer extra) (loop_turn ipv4 answer extra w)
  loop_turn-IsTurn answer extra w =
      let buffer = with_data w.w_buffer extra in
      let finished = w.finished || is_close extra in
      elim (Bool-cases (finished && not (is_filled buffer))) [
        | inl closes ↦
            rw (closes, loop_turn) (stops _ (unfilled w.w_buffer extra (ground arith)) refl)
        | inr goes_on ↦ elim (Bool-cases (not (is_filled w.w_buffer) || is_flush extra)) [
          | inl sends ↦
              rw (goes_on, sends, loop_turn)
                (send_buffer-IsTurn finished (is_filled w.w_buffer) buffer answer)
          | inr keeps ↦
              rw (goes_on, keeps, loop_turn)
                (wrote_bytes-IsTurn finished (is_filled w.w_buffer) 0 buffer)
        ]
      ]

  pub write_turn-IsTurn :
      (answer : Sent) (extra : Option Bytes) (w : Writer)
      → w.phase ≡ looping
      → IsTurn (with_data w.w_buffer extra) (write_turn ipv4 answer extra w)
  unfolding write_turn
  write_turn-IsTurn answer extra w looks = rw (looks, write_turn) (loop_turn-IsTurn answer extra w)

-- Data written one after the other, with the answers of the socket: the bytes that were sent, and the
-- writer at the end. The first None that is yielded ends the connection.
unfoldable pub converse : Bool → List (Option Bytes × Sent) → Writer → Option (Bytes × Writer)
converse ipv4 [] w = some ([], w)
converse ipv4 ((extra, answer) ∷ rest) w = elim (write_turn ipv4 answer extra w) [
  | none ↦ none
  | some turn ↦ elim turn.0 [
    | nothing ↦ some ([], turn.1)
    | wrote buffered had_buffer sent4 sent6 ↦ elim (converse ipv4 rest turn.1) [
      | none ↦ none
      | some later ↦ some (take (sent4 + sent6) (with_data w.w_buffer extra) ++ later.0, later.1)
    ]
  ]
]

abbrev pub written : List (Option Bytes × Sent) → Bytes
written [] = []
written ((extra, answer) ∷ rest) = with_data [] extra ++ written rest

-- What has become of the bytes that were there and those that were written: sent, kept, or not taken
-- any more because the connection had ended.
abbrev pub IsKept : Bytes → Option (Bytes × Writer) → Type 0
IsKept bytes o =
    (r : Bytes × Writer) × (dropped : Bytes) × (o ≡ some r)
    × ((r.0 ++ r.1.w_buffer) ++ dropped ≡ bytes)
    × (r.1.phase ≡ looping → dropped ≡ [])

with_data-append :
    (buffer : Bytes) (extra : Option Bytes) → with_data buffer extra ≡ buffer ++ with_data [] extra
with_data-append buffer none = sym (append-nil buffer)
with_data-append buffer (some extra) = refl

module _ (ipv4 : Bool) where
  abbrev after_turn : List (Option Bytes × Sent) → Bytes → Turn → Option (Bytes × Writer)
  after_turn rest buffer t = elim t [
    | none ↦ none
    | some turn ↦ elim turn.0 [
      | nothing ↦ some ([], turn.1)
      | wrote buffered had_buffer sent4 sent6 ↦ elim (converse ipv4 rest turn.1) [
        | none ↦ none
        | some later ↦ some (take (sent4 + sent6) buffer ++ later.0, later.1)
      ]
    ]
  ]

  after_turn-IsKept :
      (rest : List (Option Bytes × Sent)) (buffer : Bytes) (t : Turn)
      → ((v : Writer)
          → v.phase ≡ looping
          → IsKept (v.w_buffer ++ written rest) (converse ipv4 rest v))
      → IsTurn buffer t
      → IsKept (buffer ++ written rest) (after_turn rest buffer t)
  after_turn-IsKept rest buffer _ h (stops v same_buffer ended) =
      (([], v), written rest, refl, ap (λ b. b ++ written rest) same_buffer, λ looks. absurd cc)
  after_turn-IsKept rest buffer _ h (splits a b sent4 sent6 v split looks) =
      let (r, dropped, went, all, none_dropped) = h v looks in
      let sent : Bytes = take (sent4 + sent6) buffer in
      (
        (sent ++ r.0, r.1),
        dropped,
        rw (went, after_turn) refl,
        (ap (λ b. b ++ dropped) (append_assoc sent r.0 r.1.w_buffer)
            ∙ append_assoc sent (r.0 ++ r.1.w_buffer) dropped
            ∙ ap (λ b. sent ++ b) all
            ∙ sym (append_assoc sent v.w_buffer (written rest))
            ∙ ap (λ b. b ++ written rest) split),
        none_dropped,
      )

  -- From a writer in its loop, whatever is written, with requests to close among it, and whatever the
  -- socket takes of each piece, the generator answers; the bytes that it says it has sent and those in its
  -- buffer are the first buffer and everything written, in that order, but for what comes after
  -- the connection has ended.
  pub converse-IsKept :
      (writes : List (Option Bytes × Sent)) (w : Writer)
      → w.phase ≡ looping
      → IsKept (w.w_buffer ++ written writes) (converse ipv4 writes w)
  unfolding converse
  converse-IsKept [] w looks =
      (([], w), [], refl, append-nil w.w_buffer ∙ sym (append-nil w.w_buffer), λ e. refl)
  converse-IsKept ((extra, answer) ∷ rest) w looks =
      let buffer = with_data w.w_buffer extra in
      let bytes : buffer ++ written rest ≡ w.w_buffer ++ (with_data [] extra ++ written rest) =
        ap (λ b. b ++ written rest) (with_data-append w.w_buffer extra)
        ∙ append_assoc w.w_buffer (with_data [] extra) (written rest) in
      rw (sym bytes) (
        after_turn-IsKept rest buffer (write_turn ipv4 answer extra w) (λ v. converse-IsKept rest v)
          (write_turn-IsTurn ipv4 answer extra w looks))
