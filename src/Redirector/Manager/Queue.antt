-- ===== src/Redirector/Manager/Queue.antt =====
-- The queue of requests, the answers of the workers' processes, and the calls of the manager as steps.
use exaproxy.Common.{
  ℕ, ◌≡◌, inl, inr, Bool, true, List, [], ◌∷◌, arith, nat_beq_iff, number_key, Option-cases,
  Bool-cases,
}
use exaproxy.Dict.{
  Dict, lookup, remove, contains, contains-insert, contains-remove, contains-lookup,
}
use exaproxy.Redirector.Manager.{
  RedirectorManager, Job, Decided, failed, deferred, command, reap, release, request_tainted,
  dequeue, do_queue, conclude, get_decision,
}
use exaproxy.Redirector.Manager.Staffed.{IsStaffed, Keeps, reap-Keeps}
use exaproxy.Redirector.Manager.Requests.{request-Keeps, request_tainted-Keeps}

-- The worker has answered: it is free, or gone where it was marked for stopping.
freed-Keeps :
    (wid : ℕ) (m : RedirectorManager)
    → IsStaffed m
    → contains wid m.active ≡ true
    → Keeps m (release wid (record m { active = remove wid m.active }))
unfolding release reap
freed-Keeps wid m v busy = record {
  staffed = record {
    available_known = λ w h. ground (
      arith,
      v.available_known w,
      v.active_known w,
      nat_beq_iff wid w,
      contains-insert wid w true m.available,
      contains-remove wid w m.available,
      contains-remove wid w m.worker,
    );
    active_known = λ w h. ground (
      arith,
      v.active_known w,
      nat_beq_iff wid w,
      contains-remove wid w m.active,
      contains-remove wid w (remove wid m.active),
      contains-remove wid w m.worker,
    );
    stopping_active = λ w h. ground (
      arith,
      v.stopping_active w,
      v.active_known w,
      nat_beq_iff wid w,
      contains-remove wid w m.active,
      contains-remove wid w (remove wid m.active),
      contains-remove wid w m.stopping,
      contains-lookup wid m.worker,
    );
    apart = λ w h. ground (
      arith,
      v.apart w,
      nat_beq_iff wid w,
      contains-remove wid w m.active,
      contains-remove wid w (remove wid m.active),
      contains-remove wid w m.available,
      contains-insert wid w true m.available,
    );
    fresh = λ w h. ground (arith, v.fresh w, contains-remove wid w m.worker);
  };
  within = λ w h. ground (arith, contains-remove wid w m.worker);
}

module _ (pick : Dict ℕ Bool → ℕ) (decide : ℕ → Job → Decided) where
  dequeue-Keeps :
      (l : Dict ℕ Bool) (q : List Job) (m : RedirectorManager)
      → IsStaffed m
      → Keeps m (dequeue pick decide l q m).1
  dequeue-Keeps [] q m v = record { staffed = v; within = λ w h. h }
  dequeue-Keeps (x ∷ l) [] m v = record { staffed = v; within = λ w h. h }
  dequeue-Keeps (x ∷ l) (job ∷ rest) m v =
      let k =
        request-Keeps pick decide job (record m { queue = rest })
          (record {
            available_known = v.available_known;
            active_known = v.active_known;
            stopping_active = v.stopping_active;
            apart = v.apart;
            fresh = v.fresh;
          }) in
      record { staffed = k.staffed; within = k.within }

  pub do_queue-Keeps : (m : RedirectorManager) → IsStaffed m → Keeps m (do_queue pick decide m).1
  unfolding do_queue
  do_queue-Keeps m v = dequeue-Keeps m.available m.queue m v

  and_then : (m n r : RedirectorManager) → Keeps m n → Keeps n r → Keeps m r
  and_then m n r k l = record { staffed = l.staffed; within = λ w h. k.within w (l.within w h) }

  conclude-Keeps :
      (wid : ℕ) (job : Job) (d : Decided) (n : RedirectorManager)
      → IsStaffed n
      → Keeps n (conclude pick decide wid job d n).1
  conclude-Keeps wid job failed n v = elim (Bool-cases job.tainted) [
    | inl twice ↦ rw twice (reap-Keeps wid n v)
    | inr once ↦
        let first = reap-Keeps wid n v in
        let again = record job { tainted = true } in
        rw once (
          and_then n (reap wid n) (request_tainted pick decide again (reap wid n)).1 first
            (request_tainted-Keeps pick decide again (reap wid n) first.staffed))
  ]
  conclude-Keeps wid job (deferred w) n v = record { staffed = v; within = λ w h. h }
  conclude-Keeps wid job (command c) n v = record { staffed = v; within = λ w h. h }

  pub get_decision-Keeps :
      (pipe_in : ℕ) (answer : Decided) (m : RedirectorManager)
      → IsStaffed m
      → Keeps m (get_decision pick decide pipe_in answer m).1
  unfolding get_decision
  get_decision-Keeps pipe_in answer m v = elim (Option-cases (lookup pipe_in m.processes)) [
    | inl nobody ↦ rw (nobody, get_decision) (record { staffed = v; within = λ w h. h })
    | inr (wid, found) ↦ elim (Option-cases (lookup wid m.active)) [
      | inl idle ↦ rw (found, idle, get_decision) (reap-Keeps wid m v)
      | inr ((job, waiting), busy) ↦
          let n = release wid (record m { active = remove wid m.active }) in
          let k = freed-Keeps wid m v (ground (arith, contains-lookup wid m.active)) in
          rw (found, busy, get_decision)
            (and_then m n (conclude pick decide wid job answer n).1 k
              (conclude-Keeps wid job answer n k.staffed))
    ]
  ]
