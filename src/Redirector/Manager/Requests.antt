-- ===== src/Redirector/Manager/Requests.antt =====
-- `acquire`, and the requests that go through it.
use exaproxy.Common.{
  ℕ, zero, suc, ◌≡◌, ◌⊎◌, subst, sym, refl, inl, inr, Bool, true, false, some, List, [], ◌∷◌, arith,
  nat_beq_iff, number_key, Option-cases, Bool-cases, length,
}
use exaproxy.Dict.{Dict, insert, remove, contains, contains-insert, contains-remove}
use exaproxy.Redirector.Manager.{
  RedirectorManager, Worker, Job, Decided, failed, deferred, command, reap, release, popped,
  acquire_loop, acquire, settle, queued, request_tainted, request,
}
use exaproxy.Redirector.Manager.Staffed.{
  IsStaffed, Keeps, reap-IsStaffed, reap-Keeps, reap-gone, release-Keeps, release-gone,
}

module _ (pick : Dict ℕ Bool → ℕ) where
  pub popped-contains :
      (first : ℕ) (b : Bool) (l : Dict ℕ Bool)
      → contains (popped pick first ((first, b) ∷ l)) ((first, b) ∷ l) ≡ true
  unfolding contains
  popped-contains first b l = ground (arith, nat_beq_iff first first)

  pub acquire_loop-left :
      (fuel : ℕ) (worker : Dict ℕ Worker) (l : Dict ℕ Bool) (w : ℕ)
      → contains w (acquire_loop pick fuel worker l).1 ≡ true
      → contains w l ≡ true
  unfolding acquire_loop
  acquire_loop-left zero worker l w h = h
  acquire_loop-left (suc fuel) worker [] w h = h
  acquire_loop-left (suc fuel) worker ((first, b) ∷ l) w h =
      let wid = popped pick first ((first, b) ∷ l) in
      let left = remove wid ((first, b) ∷ l) in
      ground (arith, contains-remove wid w ((first, b) ∷ l), acquire_loop-left fuel worker left w)

  -- what `acquire` gives is known, was in the set and is no longer
  pub acquire_loop-found :
      (fuel : ℕ) (worker : Dict ℕ Worker) (l : Dict ℕ Bool) (wid : ℕ)
      → (acquire_loop pick fuel worker l).0 ≡ some wid
      → (contains wid worker ≡ true)
        × (contains wid l ≡ true)
        × (contains wid (acquire_loop pick fuel worker l).1 ≡ false)
  unfolding acquire_loop
  acquire_loop-found zero worker l wid h = absurd cc
  acquire_loop-found (suc fuel) worker [] wid h = absurd cc
  acquire_loop-found (suc fuel) worker ((first, b) ∷ l) wid h =
      let x = popped pick first ((first, b) ∷ l) in
      let left = remove x ((first, b) ∷ l) in
      ground (
        arith,
        contains-remove x wid ((first, b) ∷ l),
        acquire_loop-found fuel worker left wid,
        popped-contains first b l,
        nat_beq_iff x wid,
      )

  module _ (m : RedirectorManager) (v : IsStaffed m) where
    pub acquire-IsStaffed : IsStaffed (acquire pick m).1
    unfolding acquire
    acquire-IsStaffed = record {
      available_known = λ w h.
          v.available_known w (acquire_loop-left (length m.available) m.worker m.available w h);
      active_known = v.active_known;
      stopping_active = v.stopping_active;
      apart = λ w h. v.apart w (acquire_loop-left (length m.available) m.worker m.available w h);
      fresh = v.fresh;
    }

    -- The worker that is given exists, held no request, and is given to nobody else.
    pub acquire-found :
        (wid : ℕ)
        → (acquire pick m).0 ≡ some wid
        → (contains wid m.worker ≡ true)
          × (contains wid m.active ≡ false)
          × (contains wid (acquire pick m).1.available ≡ false)
    unfolding acquire
    acquire-found wid h =
        let f = acquire_loop-found (length m.available) m.worker m.available wid h in
        (f.0, v.apart wid f.1, f.2)

-- `acquire` changes `available` alone
acquire-worker :
    (pick : Dict ℕ Bool → ℕ) (m : RedirectorManager) (wid : ℕ)
    → contains wid m.worker ≡ true
    → contains wid (acquire pick m).1.worker ≡ true
unfolding acquire
acquire-worker pick m wid h = h

acquire-active :
    (pick : Dict ℕ Bool → ℕ) (m : RedirectorManager) (wid : ℕ)
    → contains wid m.active ≡ false
    → contains wid (acquire pick m).1.active ≡ false
unfolding acquire
acquire-active pick m wid h = h

pub Decided-cases :
    (d : Decided)
    → (d ≡ failed) ⊎ ((w : List ℕ) × (d ≡ deferred w)) ⊎ ((c : List ℕ) × (d ≡ command c))
Decided-cases failed = inl refl
Decided-cases (deferred w) = inr (inl (w, refl))
Decided-cases (command c) = inr (inr (c, refl))

module _ (pick : Dict ℕ Bool → ℕ) (decide : ℕ → Job → Decided) where
  active-IsStaffed :
      (wid : ℕ) (job : Job) (waiting : List ℕ) (n : RedirectorManager)
      → IsStaffed n
      → contains wid n.worker ≡ true
      → contains wid n.available ≡ false
      → IsStaffed (record n { active = insert wid (job, waiting) n.active })
  active-IsStaffed wid job waiting n v known taken = record {
    available_known = v.available_known;
    active_known = λ w h.
        ground (
          arith,
          v.active_known w,
          nat_beq_iff wid w,
          contains-insert wid w (job, waiting) n.active,
        );
    stopping_active =
        λ w h. ground (arith, v.stopping_active w, contains-insert wid w (job, waiting) n.active);
    apart = λ w h.
        ground (arith, v.apart w, nat_beq_iff wid w, contains-insert wid w (job, waiting) n.active);
    fresh = v.fresh;
  }

  settle-Keeps :
      (wid : ℕ) (job : Job) (d : Decided) (n : RedirectorManager)
      → IsStaffed n
      → contains wid n.worker ≡ true
      → contains wid n.active ≡ false
      → contains wid n.available ≡ false
      → Keeps n (settle pick decide wid job d n).1
  settle-Keeps wid job failed n v known idle taken = record { staffed = v; within = λ w h. h }
  settle-Keeps wid job (deferred waiting) n v known idle taken = record {
    staffed = active-IsStaffed wid job waiting n v known taken;
    within = λ w h. h;
  }
  settle-Keeps wid job (command c) n v known idle taken = release-Keeps wid n v idle

  -- The worker that failed is reaped; the release that follows does nothing.
  failed-Keeps :
      (wid : ℕ) (n : RedirectorManager) → IsStaffed n → Keeps n (release wid (reap wid n))
  failed-Keeps wid n v =
      subst (Keeps n) (sym (release-gone wid (reap wid n) (reap-gone wid n v).0))
        (reap-Keeps wid n v)

  -- What is kept after `acquire` is kept by the whole: it changes `available` alone.
  taken-Keeps : (m r : RedirectorManager) → Keeps (acquire pick m).1 r → Keeps m r
  unfolding acquire
  taken-Keeps m r k = record { staffed = k.staffed; within = k.within }

  queued-Keeps :
      (job : Job) (n : RedirectorManager) → IsStaffed n → Keeps n (queued pick decide job n).1
  queued-Keeps job n v = record {
    staffed = record {
      available_known = v.available_known;
      active_known = v.active_known;
      stopping_active = v.stopping_active;
      apart = v.apart;
      fresh = v.fresh;
    };
    within = λ w h. h;
  }

  found-Keeps :
      (wid : ℕ) (job : Job) (d : Decided) (m : RedirectorManager)
      → IsStaffed m
      → (acquire pick m).0 ≡ some wid
      → Keeps m (settle pick decide wid job d (acquire pick m).1).1
  found-Keeps wid job d m v found =
      let f = acquire-found pick m v wid found in
      taken-Keeps m (settle pick decide wid job d (acquire pick m).1).1 (
        settle-Keeps wid job d (acquire pick m).1 (acquire-IsStaffed pick m v)
          (acquire-worker pick m wid f.0) (acquire-active pick m wid f.1) f.2)

  pub request_tainted-Keeps :
      (job : Job) (m : RedirectorManager)
      → IsStaffed m
      → Keeps m (request_tainted pick decide job m).1
  unfolding request_tainted
  request_tainted-Keeps job m v =
      let n = (acquire pick m).1 in
      let a = acquire-IsStaffed pick m v in
      elim (Option-cases (acquire pick m).0) [
        | inl nobody ↦
            rw (nobody, request_tainted)
              (taken-Keeps m (queued pick decide job n).1 (queued-Keeps job n a))
        | inr (wid, found) ↦ elim (Decided-cases (decide wid job)) [
          | inl bad ↦
              rw (found, bad, request_tainted)
                (taken-Keeps m (release wid (reap wid n)) (failed-Keeps wid n a))
          | inr (inl (w, waits)) ↦
              rw (found, waits, request_tainted) (found-Keeps wid job (deferred w) m v found)
          | inr (inr (c, done)) ↦
              rw (found, done, request_tainted) (found-Keeps wid job (command c) m v found)
        ]
      ]

  -- The request is tried on another worker, and the release of the one that failed does nothing.
  pub retried-gone :
      (wid : ℕ) (job : Job) (n : RedirectorManager)
      → IsStaffed n
      → contains wid (request_tainted pick decide job (reap wid n)).1.worker ≡ false
  retried-gone wid job n v =
      let again = request_tainted-Keeps job (reap wid n) (reap-IsStaffed wid n v) in
      ground (arith, again.within wid, reap-gone wid n v)

  retried-Keeps :
      (wid : ℕ) (job : Job) (n : RedirectorManager)
      → IsStaffed n
      → Keeps n (release wid (request_tainted pick decide job (reap wid n)).1)
  retried-Keeps wid job n v =
      let first = reap-Keeps wid n v in
      let again = request_tainted-Keeps job (reap wid n) first.staffed in
      let after = (request_tainted pick decide job (reap wid n)).1 in
      let gone : contains wid after.worker ≡ false =
        ground (arith, again.within wid, reap-gone wid n v) in
      subst (Keeps n) (sym (release-gone wid after gone))
        (record { staffed = again.staffed; within = λ w h. first.within w (again.within w h) })

  pub request-Keeps :
      (job : Job) (m : RedirectorManager) → IsStaffed m → Keeps m (request pick decide job m).1
  unfolding request
  request-Keeps job m v =
      let n = (acquire pick m).1 in
      let a = acquire-IsStaffed pick m v in
      elim (Option-cases (acquire pick m).0) [
        | inl nobody ↦
            rw (nobody, request) (taken-Keeps m (queued pick decide job n).1 (queued-Keeps job n a))
        | inr (wid, found) ↦ elim (Decided-cases (decide wid job)) [
          | inl bad ↦ elim (Bool-cases job.tainted) [
            | inl twice ↦
                rw (found, bad, twice, request)
                  (taken-Keeps m (release wid (reap wid n)) (failed-Keeps wid n a))
            | inr once ↦
                rw (found, bad, once, request)
                  (taken-Keeps m
                    (release wid
                      (request_tainted pick decide (record job { tainted = true }) (reap wid n)).1)
                    (retried-Keeps wid (record job { tainted = true }) n a))
          ]
          | inr (inl (w, waits)) ↦
              rw (found, waits, request) (found-Keeps wid job (deferred w) m v found)
          | inr (inr (c, done)) ↦
              rw (found, done, request) (found-Keeps wid job (command c) m v found)
        ]
      ]
