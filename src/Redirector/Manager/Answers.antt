-- ===== src/Redirector/Manager/Answers.antt =====
-- What becomes of a request: it is answered, or the manager still holds it.
use exaproxy.Common.{
  ℕ, ◌≡◌, ◌⊎◌, subst, sym, refl, inl, inr, Bool, true, some, List, [], ◌∷◌, ◌++◌, arith,
  nat_beq_iff, number_key, Option-cases, Bool-cases,
}
use exaproxy.Dict.{Dict, lookup, lookup-insert}
use exaproxy.Redirector.Manager.{
  RedirectorManager, Answer, release, Job, Decided, failed, deferred, command, closed, decided,
  later, reap, acquire, settle, request_tainted, request,
}
use exaproxy.Redirector.Manager.Staffed.{IsStaffed, release-gone}
use exaproxy.Redirector.Manager.Requests.{acquire-IsStaffed, retried-gone, Decided-cases}

-- The request itself, or marked as one that a worker failed on.
abbrev pub IsSame : Job → Job → Type 0
IsSame job j = (j ≡ job) ⊎ (j ≡ record job { tainted = true })

-- The whole request is the last of the queue, or with a worker that chose to wait for its process.
abbrev pub IsPending : (ℕ → Job → Decided) → Job → RedirectorManager → Type 0
IsPending decide job m =
    ((q : List Job) × (j : Job) × (m.queue ≡ q ++ j ∷ []) × IsSame job j)
    ⊎ ((wid : ℕ) × (j : Job) × (x : List ℕ) × (lookup wid m.active ≡ some (j, x))
        × (decide wid j ≡ deferred x)
        × IsSame job j)

again-IsPending :
    (decide : ℕ → Job → Decided) (job : Job) (m : RedirectorManager)
    → IsPending decide (record job { tainted = true }) m
    → IsPending decide job m
again-IsPending decide job m (inl (q, j, e, inl one)) = inl (q, j, e, inr one)
again-IsPending decide job m (inl (q, j, e, inr one)) = inl (q, j, e, inr one)
again-IsPending decide job m (inr (wid, j, x, e, d, inl one)) = inr (wid, j, x, e, d, inr one)
again-IsPending decide job m (inr (wid, j, x, e, d, inr one)) = inr (wid, j, x, e, d, inr one)

module _ (pick : Dict ℕ Bool → ℕ) (decide : ℕ → Job → Decided) where
  settle-IsPending :
      (wid : ℕ) (job : Job) (d : Decided) (n : RedirectorManager)
      → decide wid job ≡ d
      → (settle pick decide wid job d n).0 ≡ later
      → IsPending decide job (settle pick decide wid job d n).1
  settle-IsPending wid job failed n d h = absurd cc
  settle-IsPending wid job (deferred w) n d h = inr (
    wid,
    job,
    w,
    ground (arith, lookup-insert wid wid (job, w) n.active, nat_beq_iff wid wid),
    d,
    inl refl,
  )
  settle-IsPending wid job (command c) n d h = absurd cc

  request_tainted-IsPending :
      (job : Job) (m : RedirectorManager)
      → (request_tainted pick decide job m).0 ≡ later
      → IsPending decide job (request_tainted pick decide job m).1
  unfolding request_tainted
  request_tainted-IsPending job m h =
      let n = (acquire pick m).1 in
      elim (Option-cases (acquire pick m).0) [
        | inl nobody ↦ rw (nobody, request_tainted) (inl (n.queue, job, refl, inl refl))
        | inr (wid, found) ↦ elim (Decided-cases (decide wid job)) [
          | inl bad ↦ absurd (let g : closed ≡ later = rw (found, bad, request_tainted) at h in cc)
          | inr (inl (w, waits)) ↦
              rw (found, waits, request_tainted)
                (settle-IsPending wid job (deferred w) n waits refl)
          | inr (inr (c, done)) ↦
              absurd (let g : decided c ≡ later = rw (found, done, request_tainted) at h in cc)
        ]
      ]

  -- From sets of workers that agree, where `request` leaves the client without an answer, the manager
  -- holds the whole request as the call returns: it is the last of the queue, or a worker that chose to
  -- wait for its process has it, as it came or marked as one that a worker failed on.
  pub request-IsPending :
      (job : Job) (m : RedirectorManager)
      → IsStaffed m
      → (request pick decide job m).0 ≡ later
      → IsPending decide job (request pick decide job m).1
  unfolding request
  request-IsPending job m v h =
      let n = (acquire pick m).1 in
      let again = record job { tainted = true } in
      elim (Option-cases (acquire pick m).0) [
        | inl nobody ↦ rw (nobody, request) (inl (n.queue, job, refl, inl refl))
        | inr (wid, found) ↦ elim (Decided-cases (decide wid job)) [
          | inl bad ↦ elim (Bool-cases job.tainted) [
            | inl twice ↦
                absurd (let g : closed ≡ later = rw (found, bad, twice, request) at h in cc)
            | inr once ↦
                let after = request_tainted pick decide again (reap wid n) in
                let g : after.0 ≡ later = rw (found, bad, once, request) at h in
                let gone = retried-gone pick decide wid again n (acquire-IsStaffed pick m v) in
                let went : request pick decide job m ≡ (after.0, release wid after.1) =
                  rw (found, bad, once, request) refl in
                let same_one : release wid after.1 ≡ after.1 = release-gone wid after.1 gone in
                subst (λ (r : Answer × RedirectorManager). IsPending decide job r.1) (sym went)
                  (subst (IsPending decide job) (sym same_one) (
                    again-IsPending decide job after.1
                      (request_tainted-IsPending again (reap wid n) g)))
          ]
          | inr (inl (w, waits)) ↦
              rw (found, waits, request) (settle-IsPending wid job (deferred w) n waits refl)
          | inr (inr (c, done)) ↦
              absurd (let g : decided c ≡ later = rw (found, done, request) at h in cc)
        ]
      ]
