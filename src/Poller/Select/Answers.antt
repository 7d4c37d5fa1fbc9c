-- ===== src/Poller/Select/Answers.antt =====
-- What a whole `poll` of the select poller answers, and when it raises.
use Prim.Native.String.{String}
use exaproxy.Common.{
  ℕ, ◌≡◌, refl, Bool, Option, none, some, List, [], ◌∷◌, arith, number_key, text_key, ◌==◌,
  Option-cases, inl, inr, Bool-cases, subst, sym,
}
use exaproxy.Dict.{Dict, lookup, insert, lookup-insert}
use exaproxy.Poller.Answered.{Answer, AllAnswered}
use exaproxy.Poller.Select.{
  Selection, SelectPoller, Side, Sockets, listed, emptied, poll_names, first_loops, last_loops,
  poll_again, poll, clear_read, add_read_socket, add, refresh, wait_for, file_reads, reading,
}
use exaproxy.Poller.Select.Polling.{
  IsHonest, IsWatched, first_loops-AllAnswered, last_loops-AllAnswered,
}

refresh-sockets : (p : Side) {q : Side} → refresh p ≡ some q → p.sockets ≡ q.sockets
refresh-sockets p {q} h = go p.modified refl
  where
    go : (l : Dict String Bool) → p.modified ≡ l → p.sockets ≡ q.sockets
    go [] e = ground arith
    go (x ∷ l) e = ground arith

module _ (blocking : List ℕ) (now wait later : List ℕ → List ℕ → Selection) (honest : IsHonest now)
    (honest_later : IsHonest later) where
  wait_for-AllAnswered :
      (p : SelectPoller) {a : Answer} {q : SelectPoller}
      → wait_for blocking now wait later p ≡ some (a, q)
      → AllAnswered (IsWatched p) a
  wait_for-AllAnswered p {a} h = elim (Option-cases (last_loops blocking later p)) [
    | inl raised ↦ absurd (ground arith)
    | inr (b, found) ↦
        let same_one : b ≡ a = ground arith in
        subst (AllAnswered (IsWatched p)) same_one
          (last_loops-AllAnswered blocking later honest_later p found)
  ]

  poll_again-AllAnswered :
      (p : SelectPoller) {a : Answer} {q : SelectPoller}
      → poll_again blocking now wait later p ≡ some (a, q)
      → AllAnswered (IsWatched p) a
  unfolding poll_again
  poll_again-AllAnswered p {a} {q} h = elim (Option-cases (refresh p.reads)) [
    | inl raised ↦ absurd (ground arith)
    | inr (r, found) ↦ elim (Option-cases (refresh p.writes)) [
      | inl raised ↦ absurd (ground arith)
      | inr (w, found_too) ↦
          let u : SelectPoller = record { reads = r; writes = w } in
          let went : wait_for blocking now wait later u ≡ some (a, q) =
            rw (found, found_too, poll_again) at h in
          let answered : AllAnswered (IsWatched u) a = wait_for-AllAnswered u went in
          λ m t l named there.
            rw (refresh-sockets p.reads found, refresh-sockets p.writes found_too)
              (answered m t l named there)
    ]
  ]

  -- Where select answers only sockets that it was given, both before and after the wait, a socket
  -- that a poll answers under a name stands under that name in the tables to read or to write.
  pub poll-AllAnswered :
      (p : SelectPoller) (a : Answer) (q : SelectPoller)
      → poll blocking now wait later p ≡ some (a, q)
      → AllAnswered (IsWatched p) a
  unfolding poll
  poll-AllAnswered p a q h = elim (Option-cases (first_loops blocking now p)) [
    | inl raised ↦ absurd (ground arith)
    | inr ([], found) ↦ poll_again-AllAnswered p (rw (found, poll) at h)
    | inr (x ∷ b, found) ↦
        let same_one : (x ∷ b) ≡ a = ground arith in
        subst (AllAnswered (IsWatched p)) same_one
          (first_loops-AllAnswered blocking now honest p found)
  ]

-- A cleared name among those to read.
poll_names-emptied :
    (poller : List ℕ → Option (List ℕ × List ℕ))
    (filed : String → List ℕ × List ℕ → Answer → Answer) (n : String) (d : Dict String Sockets)
    (answer : Answer)
    → poll_names poller filed (insert n emptied d) answer ≡ none
unfolding poll_names insert
poll_names-emptied poller filed n [] answer = refl
poll_names-emptied poller filed n ((m, k) ∷ d) answer = elim (Bool-cases (m == n)) [
  | inl hit ↦ rw (hit, insert, poll_names) refl
  | inr miss ↦ later k (λ a. poll_names-emptied poller filed n d a)
]
  where
    later :
        (k : Sockets)
        → ((a : Answer) → poll_names poller filed (insert n emptied d) a ≡ none)
        → poll_names poller filed (insert n emptied ((m, k) ∷ d)) answer ≡ none
    later emptied rest = ground arith
    later (listed l) rest = elim (Option-cases (poller l)) [
      | inl raised ↦ ground arith
      | inr (socks, found) ↦ ground (arith, rest (filed m socks answer))
    ]

module _ (blocking : List ℕ) (now wait later : List ℕ → List ℕ → Selection) where
  -- After clearRead of a name, the next poll raises, whatever select does, and so does adding any
  -- socket under that name.
  pub clear_read-poll :
      (n : String) (s : ℕ) (p q : SelectPoller)
      → clear_read n p ≡ some q
      → (poll blocking now wait later q ≡ none) × (add_read_socket n s q ≡ none)
  unfolding clear_read
  clear_read-poll n s p q h = elim (Option-cases (lookup n p.reads.sockets)) [
    | inl missing ↦ absurd (ground arith)
    | inr (l, found) ↦
        let cleared : insert n emptied p.reads.sockets ≡ q.reads.sockets = ground arith in
        let raised : poll_names (reading blocking now) file_reads q.reads.sockets [] ≡ none =
          rw (sym cleared)
            (poll_names-emptied (reading blocking now) file_reads n p.reads.sockets []) in
        (
          unfold poll first_loops in ground arith,
          unfold add_read_socket add in
              ground (arith, lookup-insert n n emptied p.reads.sockets, text_key.same_iff n n),
        )
  ]
