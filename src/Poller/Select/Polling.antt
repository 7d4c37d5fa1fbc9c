-- ===== src/Poller/Select/Polling.antt =====
-- What `poll` of the select poller answers, and when it raises.
use Prim.Native.String.{String}
use exaproxy.Common.{
  ℕ, ◌≡◌, Bool, true, false, ◌||◌, ◌&&◌, subst, Option, some, List, [], ◌∷◌, arith, number_key,
  text_key, mem, ◌==◌, Option-cases, inl, inr, ◌⊎◌,
}
use exaproxy.Dict.{Dict, lookup, insert}
use exaproxy.Poller.Answered.{Answer, AllAnswered, insert-AllAnswered}
use exaproxy.Poller.Select.{
  Selection, selected, socket_error, select_error, other_error, SelectPoller, Sockets, listed,
  emptied, inside, poll_select, poll_names, first_loops, last_loops, file, file_reads, file_writes,
  file_all, reading, writing,
}

-- Is a socket among those of a name?
unfoldable pub standing : String → ℕ → Dict String Sockets → Bool
standing m t [] = false
standing m t ((n, l) ∷ d) = let rest = standing m t d in (n == m && inside t l) || rest

-- `select` answers only sockets that it was given.
abbrev pub IsHonest : (List ℕ → List ℕ → Selection) → Type 0
IsHonest select =
    (r w a b : List ℕ)
    → select r w ≡ selected a b
    → (t : ℕ) → (mem t a ≡ true → mem t r ≡ true) × (mem t b ≡ true → mem t w ≡ true)

module _ (P : String → ℕ → Type 0) where
  file-AllAnswered :
      (n : String) (l : List ℕ) (answer : Answer)
      → AllAnswered P answer
      → ((t : ℕ) → mem t l ≡ true → P n t)
      → AllAnswered P (file n l answer)
  file-AllAnswered n [] answer all h = all
  file-AllAnswered n (x ∷ l) answer all h = insert-AllAnswered P n (x ∷ l) answer all h

  -- A loop over the names files what its turns file.
  module _ (poller : List ℕ → Option (List ℕ × List ℕ))
      (filed : String → List ℕ × List ℕ → Answer → Answer)
      (turn : (n : String) (l : List ℕ) (socks : List ℕ × List ℕ) (a : Answer)
        → ((t : ℕ) → mem t l ≡ true → P n t)
        → poller l ≡ some socks
        → AllAnswered P a
        → AllAnswered P (filed n socks a)) where
    poll_names-AllAnswered :
        (d : Dict String Sockets) (answer : Answer) {final : Answer}
        → ((n : String) (t : ℕ) → standing n t d ≡ true → P n t)
        → AllAnswered P answer
        → poll_names poller filed d answer ≡ some final
        → AllAnswered P final
    unfolding poll_names standing
    poll_names-AllAnswered [] answer {final} h all e =
        let same_one : answer ≡ final = ground arith in subst (AllAnswered P) same_one all
    poll_names-AllAnswered ((n, emptied) ∷ d) answer h all e = cc
    poll_names-AllAnswered ((n, listed l) ∷ d) answer h all e = elim (Option-cases (poller l)) [
      | inl raised ↦ cc (rw (raised, poll_names) at e)
      | inr (socks, found) ↦
          poll_names-AllAnswered d (filed n socks answer) (λ m t there. h m t (ground arith))
            (turn n l socks answer (λ t there. h n t (ground (arith, text_key.same_iff n n))) found
              all)
            (rw (found, poll_names) at e)
    ]

-- A pair that `poll_select` answers is one that `select` answered, or empty.
poll_select-mem :
    (blocking : List ℕ) (s : Selection) {a b : List ℕ} (t : ℕ)
    → poll_select blocking s ≡ some (a, b)
    → (mem t a ≡ true) ⊎ (mem t b ≡ true)
    → s ≡ selected a b
unfolding poll_select
poll_select-mem blocking (selected r w) t e h = ground arith
poll_select-mem blocking (socket_error n) t e h = ground arith
poll_select-mem blocking (select_error n) t e h = ground arith
poll_select-mem blocking other_error t e h = cc

module _ (P : String → ℕ → Type 0) (blocking : List ℕ) (select : List ℕ → List ℕ → Selection)
    (honest : IsHonest select) (n : String) (l : List ℕ) (socks : List ℕ × List ℕ) (a : Answer)
    (h : (t : ℕ) → mem t l ≡ true → P n t) (all : AllAnswered P a) where
  file_reads_turn :
      poll_select blocking (select l []) ≡ some socks → AllAnswered P (file_reads n socks a)
  file_reads_turn e = file-AllAnswered P n socks.0 a all (λ t there. h t (
      (honest l [] socks.0 socks.1 (poll_select-mem blocking (select l []) t e (inl there)) t).0
        there))

  file_writes_turn :
      poll_select blocking (select [] l) ≡ some socks → AllAnswered P (file_writes n socks a)
  file_writes_turn e = file-AllAnswered P n socks.1 a all (λ t there. h t (
      (honest [] l socks.0 socks.1 (poll_select-mem blocking (select [] l) t e (inr there)) t).1
        there))

  file_all_turn :
      poll_select blocking (select [] l) ≡ some socks → AllAnswered P (file_all n socks a)
  file_all_turn e =
      file-AllAnswered P n socks.0 (insert n socks.1 a)
        (insert-AllAnswered P n socks.1 a all (λ t there. h t (
          (honest [] l socks.0 socks.1 (poll_select-mem blocking (select [] l) t e (inr there)) t).1
            there)))
        (λ t there. absurd (
          ground (
            arith,
            (honest [] l socks.0 socks.1 (poll_select-mem blocking (select [] l) t e (inl there))
                  t).0
                there,
          )))

-- A socket stands under a name of the poller, to be read or written.
abbrev pub IsWatched : SelectPoller → String → ℕ → Type 0
IsWatched p m t = (standing m t p.reads.sockets || standing m t p.writes.sockets) ≡ true

module _ (blocking : List ℕ) (select : List ℕ → List ℕ → Selection) (honest : IsHonest select)
    (p : SelectPoller) where
  reads_looped :
      {a : Answer}
      → poll_names (reading blocking select) file_reads p.reads.sockets [] ≡ some a
      → AllAnswered (IsWatched p) a
  unfolding lookup
  reads_looped e =
      poll_names-AllAnswered (IsWatched p) (reading blocking select) file_reads
        (λ n l socks a h found all.
          file_reads_turn (IsWatched p) blocking select honest n l socks a h all found)
        p.reads.sockets [] (λ n t there. ground arith) (λ m t l found there. ground arith) e

  pub first_loops-AllAnswered :
      {a : Answer} → first_loops blocking select p ≡ some a → AllAnswered (IsWatched p) a
  unfolding first_loops
  first_loops-AllAnswered e =
      elim (Option-cases (poll_names (reading blocking select) file_reads p.reads.sockets [])) [
        | inl raised ↦ cc (rw (raised, first_loops) at e)
        | inr (b, found) ↦
            poll_names-AllAnswered (IsWatched p) (writing blocking select) file_writes
              (λ n l socks a h found all.
                file_writes_turn (IsWatched p) blocking select honest n l socks a h all found)
              p.writes.sockets b (λ n t there. ground arith) (reads_looped found)
              (rw (found, first_loops) at e)
      ]

  pub last_loops-AllAnswered :
      {a : Answer} → last_loops blocking select p ≡ some a → AllAnswered (IsWatched p) a
  unfolding last_loops
  last_loops-AllAnswered e =
      elim (Option-cases (poll_names (reading blocking select) file_reads p.reads.sockets [])) [
        | inl raised ↦ cc (rw (raised, last_loops) at e)
        | inr (b, found) ↦
            poll_names-AllAnswered (IsWatched p) (writing blocking select) file_all
              (λ n l socks a h found all.
                file_all_turn (IsWatched p) blocking select honest n l socks a h all found)
              p.writes.sockets b (λ n t there. ground arith) (reads_looped found)
              (rw (found, last_loops) at e)
      ]
