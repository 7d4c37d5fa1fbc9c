-- ===== src/Redirector/Manager/Staffed.antt =====
-- The manager's sets of workers: those that may be given a request, and those that hold one.
use exaproxy.Common.{
  ℕ, zero, suc, ◌+◌, ◌<◌, ◌≡◌, inl, inr, true, false, Option, arith, nat_beq_iff, number_key,
  Option-cases, Bool-cases, ◌%◌,
}
use exaproxy.Dict.{lookup, contains, contains-insert, contains-remove, contains-lookup}
use exaproxy.Redirector.Manager.{
  RedirectorManager, maxint, Worker, create, reap, reaped, stop_worker, release, spawn_one, spawn,
}

mod_small : (a : ℕ) → a < maxint → a % maxint ≡ a
mod_small a h = omega arith

-- Only workers that exist are available or hold a request, none does both, a worker is marked for
-- stopping only while it holds a request, and the next id is above those of all workers.
pub record IsStaffed (m : RedirectorManager) : Type 0 where
  pub available_known : (w : ℕ) → contains w m.available ≡ true → contains w m.worker ≡ true
  pub active_known : (w : ℕ) → contains w m.active ≡ true → contains w m.worker ≡ true
  pub stopping_active : (w : ℕ) → contains w m.stopping ≡ true → contains w m.active ≡ true
  pub apart : (w : ℕ) → contains w m.available ≡ true → contains w m.active ≡ false
  pub fresh : (w : ℕ) → contains w m.worker ≡ true → w < m.nextid

pub create-IsStaffed : (low high : ℕ) → IsStaffed (create low high)
unfolding create contains
create-IsStaffed low high = record {
  available_known = λ w h. cc;
  active_known = λ w h. cc;
  stopping_active = λ w h. cc;
  apart = λ w h. cc;
  fresh = λ w h. absurd cc;
}

pub reaped-IsStaffed :
    (x : Worker) (wid : ℕ) (m : RedirectorManager) → IsStaffed m → IsStaffed (reaped x wid m)
reaped-IsStaffed x wid m v = record {
  available_known = λ w h. ground (
    arith,
    v.available_known w,
    contains-remove wid w m.available,
    contains-remove wid w m.worker,
  );
  active_known = λ w h.
      ground
        (arith, v.active_known w, contains-remove wid w m.active, contains-remove wid w m.worker);
  stopping_active = λ w h. ground (
    arith,
    v.stopping_active w,
    contains-remove wid w m.active,
    contains-remove wid w m.stopping,
  );
  apart = λ w h.
      ground (arith, v.apart w, contains-remove wid w m.active, contains-remove wid w m.available);
  fresh = λ w h. ground (arith, v.fresh w, contains-remove wid w m.worker);
}

pub reap-IsStaffed : (wid : ℕ) (m : RedirectorManager) → IsStaffed m → IsStaffed (reap wid m)
unfolding reap
reap-IsStaffed wid m v = elim (Option-cases (lookup wid m.worker)) [
  | inl absent ↦ rw (absent, reap) v
  | inr (x, found) ↦ rw (found, reap) (reaped-IsStaffed x wid m v)
]

pub stop_worker-IsStaffed :
    (wid : ℕ) (m : RedirectorManager) → IsStaffed m → IsStaffed (stop_worker wid m)
unfolding stop_worker
stop_worker-IsStaffed wid m v = elim (Bool-cases (contains wid m.active)) [
  | inl held ↦
      rw (held, stop_worker)
        (record {
          available_known = v.available_known;
          active_known = v.active_known;
          stopping_active = λ w h. ground (
            arith,
            v.stopping_active w,
            nat_beq_iff wid w,
            contains-insert wid w true m.stopping,
          );
          apart = v.apart;
          fresh = v.fresh;
        })
  | inr free ↦ rw (free, stop_worker) (reap-IsStaffed wid m v)
]

pub release-IsStaffed :
    (wid : ℕ) (m : RedirectorManager)
    → IsStaffed m
    → contains wid m.active ≡ false
    → IsStaffed (release wid m)
unfolding release
release-IsStaffed wid m v idle = elim (Bool-cases (contains wid m.worker)) [
  | inr gone ↦ rw (gone, release) v
  | inl known ↦ elim (Bool-cases (contains wid m.stopping)) [
    | inl going ↦ rw (known, going, release) (reap-IsStaffed wid m v)
    | inr staying ↦
        rw (known, staying, release)
          (record {
            available_known = λ w h. ground (
              arith,
              v.available_known w,
              nat_beq_iff wid w,
              contains-insert wid w true m.available,
            );
            active_known = v.active_known;
            stopping_active = v.stopping_active;
            apart = λ w h.
                ground
                  (arith, v.apart w, nat_beq_iff wid w, contains-insert wid w true m.available);
            fresh = v.fresh;
          })
  ]
]

module _ (now : ℕ) (process_of : ℕ → Option ℕ) where
  pub spawn_one-IsStaffed :
      (m : RedirectorManager)
      → IsStaffed m
      → m.nextid + 1 < maxint
      → IsStaffed (spawn_one now process_of m)
  unfolding spawn_one
  spawn_one-IsStaffed m v room =
      let wid = m.nextid in
      let x : Worker = record { wid = wid; creation = now; process = process_of wid } in
      let bound = mod_small (wid + 1) room in
      record {
        available_known = λ w h. ground (
          arith,
          v.available_known w,
          nat_beq_iff wid w,
          contains-insert wid w true m.available,
          contains-insert wid w x m.worker,
        );
        active_known = λ w h. ground (arith, v.active_known w, contains-insert wid w x m.worker);
        stopping_active = v.stopping_active;
        apart = λ w h. ground (
          arith,
          v.apart w,
          v.active_known w,
          v.fresh w,
          nat_beq_iff wid w,
          contains-insert wid w true m.available,
        );
        fresh = λ w h.
            ground (arith, v.fresh w, bound, nat_beq_iff wid w, contains-insert wid w x m.worker);
      }

  pub spawn-IsStaffed :
      (n : ℕ) (m : RedirectorManager)
      → IsStaffed m
      → m.nextid + n < maxint
      → IsStaffed (spawn now process_of n m)
  unfolding spawn spawn_one
  spawn-IsStaffed zero m v room = v
  spawn-IsStaffed (suc n) m v room =
      spawn-IsStaffed n (spawn_one now process_of m) (spawn_one-IsStaffed m v (omega arith))
        (let bound = mod_small (m.nextid + 1) (omega arith) in omega arith)

-- What a call that forks nothing leaves: workers that were there before, and the rules kept.
pub record Keeps (m n : RedirectorManager) : Type 0 where
  pub staffed : IsStaffed n
  pub within : (w : ℕ) → contains w n.worker ≡ true → contains w m.worker ≡ true

pub reap-Keeps : (wid : ℕ) (m : RedirectorManager) → IsStaffed m → Keeps m (reap wid m)
unfolding reap
reap-Keeps wid m v = record {
  staffed = reap-IsStaffed wid m v;
  within = λ w h. ground (arith, contains-remove wid w m.worker);
}

-- a worker that was reaped is gone
pub reap-gone :
    (wid : ℕ) (m : RedirectorManager)
    → IsStaffed m
    → (contains wid (reap wid m).worker ≡ false) × (contains wid (reap wid m).active ≡ false)
unfolding reap
reap-gone wid m v = elim (Option-cases (lookup wid m.worker)) [
  | inl absent ↦
      rw (absent, reap)
        (let known = contains-lookup wid m.worker in
          (ground arith, ground (arith, v.active_known wid)))
  | inr (x, found) ↦
      rw (found, reap)
        (let gone = contains-remove wid wid m.worker in
          let idle = contains-remove wid wid m.active in
          (ground (arith, nat_beq_iff wid wid), ground (arith, nat_beq_iff wid wid)))
]

pub release-Keeps :
    (wid : ℕ) (m : RedirectorManager)
    → IsStaffed m
    → contains wid m.active ≡ false
    → Keeps m (release wid m)
unfolding release reap
release-Keeps wid m v idle = record {
  staffed = release-IsStaffed wid m v idle;
  within = λ w h. ground (arith, contains-remove wid w m.worker);
}

pub release-gone :
    (wid : ℕ) (m : RedirectorManager) → contains wid m.worker ≡ false → release wid m ≡ m
unfolding release
release-gone wid m gone = rw gone
