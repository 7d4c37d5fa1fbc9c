-- ===== src/Content/Worker/Stream.antt =====
-- What the server receives is what was written, in order.
use mathlib.Core.List.{append_assoc, append-nil}
use exaproxy.Common.{◌≡◌, refl, sym, ap, ◌∙◌, List, [], ◌∷◌, ◌++◌, take, take-append-drop}
use exaproxy.Content.Worker.{
  Bytes, Content, Sent, took, would_block, unavailable, failed, write_data,
}

-- the bytes that one `send` of `buffer` moved
abbrev pub moved : Sent → Bytes → Bytes
moved (took n) buffer = take n buffer
moved _ buffer = []

-- A conversation: pieces of data with the answers of the socket. It goes on after an error too, as
-- the source keeps the buffer.
unfoldable pub converse : Content → Bytes → List (Bytes × Sent) → Bytes × Bytes
converse c buffer [] = ([], buffer)
converse c buffer ((extra, answer) ∷ rest) =
    let (sent, left) = converse c (write_data c buffer answer extra).w_buffer rest in
    (moved answer (buffer ++ extra) ++ sent, left)

abbrev pub written : List (Bytes × Sent) → Bytes
written [] = []
written ((extra, answer) ∷ rest) = extra ++ written rest

write_split :
    (c : Content) (buffer extra : Bytes) (answer : Sent)
    → moved answer (buffer ++ extra) ++ (write_data c buffer answer extra).w_buffer
      ≡ buffer ++ extra
unfolding write_data
write_split c buffer extra (took n) = take-append-drop n (buffer ++ extra)
write_split c buffer extra would_block = refl
write_split c buffer extra unavailable = refl
write_split c buffer extra failed = refl

-- Whatever the socket takes of each write, and whichever writes fail, the bytes that it took and
-- those still buffered are the first buffer and everything written since, in that order: none is
-- lost, doubled or moved.
pub converse_keeps :
    (c : Content) (buffer : Bytes) (writes : List (Bytes × Sent))
    → (converse c buffer writes).0 ++ (converse c buffer writes).1 ≡ buffer ++ written writes
unfolding converse
converse_keeps c buffer [] = sym (append-nil buffer)
converse_keeps c buffer ((extra, answer) ∷ rest) =
    append_assoc (moved answer (buffer ++ extra)) _ _
    ∙ ap (◌++◌ (moved answer (buffer ++ extra)))
        (converse_keeps c (write_data c buffer answer extra).w_buffer rest)
    ∙ sym (append_assoc (moved answer (buffer ++ extra)) _ _)
    ∙ ap (λ l. l ++ written rest) (write_split c buffer extra answer)
    ∙ append_assoc buffer extra (written rest)
