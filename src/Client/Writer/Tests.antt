-- ===== src/Client/Writer/Tests.antt =====
-- The writer's theorems at concrete inputs.
use exaproxy.Common.{◌≡◌, refl, true, false, Option, none, some, List, [], ◌∷◌, arith}
use exaproxy.Client.Writer.{Bytes, Writer, looping, stopping, Sent, took, would_block}
use exaproxy.Client.Writer.Stream.{converse, IsKept, converse-IsKept}
use exaproxy.Client.Writer.Closing.{told_to_close, flushes, converse-flushes}

abbrev fresh : Writer
fresh = record { w_buffer = []; finished = false; phase = looping }

-- Two bytes of three are taken, the rest waits, and the client is told to close.
abbrev writes : List (Option Bytes × Sent)
writes =
    (some (1 ∷ 2 ∷ 3 ∷ []), took 2)
    ∷ (some (4 ∷ []), took 0)
    ∷ (none, would_block)
    ∷ (some [], took 2)
    ∷ (some [], took 0)
    ∷ []

converse-IsKept_example : IsKept (1 ∷ 2 ∷ 3 ∷ 4 ∷ []) (converse true writes fresh)
converse-IsKept_example = converse-IsKept true writes fresh refl

converse-flushes_example :
    (r : Bytes × Writer) × (converse false
        (flushes (2 ∷ 1 ∷ 1 ∷ 1 ∷ []))
        (told_to_close (5 ∷ 6 ∷ 7 ∷ []))
      ≡ some r)
    × (r.0 ≡ 5 ∷ 6 ∷ 7 ∷ [])
    × (r.1.w_buffer ≡ [])
    × (r.1.phase ≡ stopping)
converse-flushes_example =
    converse-flushes false (2 ∷ 1 ∷ 1 ∷ 1 ∷ []) (5 ∷ 6 ∷ 7 ∷ [])
      (omega arith, (omega arith, (omega arith, (omega arith, tt)))) (omega arith)
