-- ===== src/Redirector/Manager/Sizes.antt =====
-- Starting and stopping workers: what it keeps, and how many workers there are afterwards.
use exaproxy.Common.{
  ℕ, zero, suc, ◌+◌, ◌-◌, ◌<◌, ◌≤◌, ◌≡◌, refl, if◌then◌else◌, inl, inr, Bool, true, false, Option,
  none, some, [], ◌∷◌, arith, number_key, Bool-cases, length, min, max, ltb, leb,
}
use exaproxy.Dict.{Dict, length-insert}
use exaproxy.Redirector.Manager.{
  RedirectorManager, maxint, Worker, reap, stop_worker, spawn_one, spawn, increase_one, increase,
  nb_to_add, made_up, provision, oldest, stop_some, decrease_one, decrease, deprovision,
  each_worker, respawn, stop,
}
use exaproxy.Redirector.Manager.Staffed.{
  IsStaffed, reap-IsStaffed, stop_worker-IsStaffed, spawn-IsStaffed, spawn_one-IsStaffed,
}

if_keeps :
    (b : Bool) (n r : RedirectorManager)
    → IsStaffed n
    → IsStaffed r
    → IsStaffed (if b then n else r)
if_keeps true n r v w = v
if_keeps false n r v w = w

pub stop_some-IsStaffed :
    (o : Option ℕ) (m : RedirectorManager) → IsStaffed m → IsStaffed (stop_some o m)
stop_some-IsStaffed none m v = v
stop_some-IsStaffed (some wid) m v = stop_worker-IsStaffed wid m v

pub decrease-IsStaffed :
    (now n : ℕ) (m : RedirectorManager) → IsStaffed m → IsStaffed (decrease now n m)
unfolding decrease decrease_one
decrease-IsStaffed now zero m v = v
decrease-IsStaffed now (suc n) m v =
    decrease-IsStaffed now n (decrease_one now m) (elim (Bool-cases (ltb m.low (length m.worker))) [
      | inl above ↦ rw (above, decrease_one) (stop_some-IsStaffed (oldest now m) m v)
      | inr not_above ↦ rw (not_above, decrease_one) v
    ])

pub deprovision-IsStaffed :
    (now : ℕ) (m : RedirectorManager) → IsStaffed m → IsStaffed (deprovision now m)
unfolding deprovision
deprovision-IsStaffed now m v = if_keeps _ _ _ (stop_some-IsStaffed (oldest now m) m v) v

pub each_worker-IsStaffed :
    (f : ℕ → RedirectorManager → RedirectorManager)
    → ((wid : ℕ) (n : RedirectorManager) → IsStaffed n → IsStaffed (f wid n))
    → (l : Dict ℕ Worker) (m : RedirectorManager) → IsStaffed m
    → IsStaffed (each_worker f l m)
each_worker-IsStaffed f keeps [] m v = v
each_worker-IsStaffed f keeps ((wid, w) ∷ rest) m v =
    each_worker-IsStaffed f keeps rest (f wid m) (keeps wid m v)

stop_worker-nextid : (wid : ℕ) (m : RedirectorManager) → (stop_worker wid m).nextid ≡ m.nextid
unfolding stop_worker reap
stop_worker-nextid wid m = ground arith

stop_worker-bounds :
    (wid : ℕ) (m : RedirectorManager)
    → ((stop_worker wid m).low ≡ m.low) × ((stop_worker wid m).high ≡ m.high)
unfolding stop_worker reap
stop_worker-bounds wid m = (ground arith, ground arith)

pub each_worker-nextid :
    (l : Dict ℕ Worker) (m : RedirectorManager) → (each_worker stop_worker l m).nextid ≡ m.nextid
each_worker-nextid [] m = refl
each_worker-nextid ((wid, w) ∷ rest) m =
    omega (arith, each_worker-nextid rest (stop_worker wid m), stop_worker-nextid wid m)

pub stop-IsStaffed : (m : RedirectorManager) → IsStaffed m → IsStaffed (stop m).1
unfolding stop
stop-IsStaffed m v =
    elim m.worker
      as (λ l.
        IsStaffed
          (elim l as (λ _. Bool × RedirectorManager) [
            | [] ↦ (false, m)
            | (wid, w) ∷ rest ↦ (true, reap wid m)
          ]).1) [ [] ↦ v | (wid, w) ∷ rest ↦ reap-IsStaffed wid m v ]

module _ (now : ℕ) (process_of : ℕ → Option ℕ) where
  -- No wrap-around: a new worker has a new id, and the table grows by one for each.
  pub spawn-length :
      (n : ℕ) (m : RedirectorManager)
      → IsStaffed m
      → m.nextid + n < maxint
      → (length (spawn now process_of n m).worker ≡ length m.worker + n)
        × ((spawn now process_of n m).nextid ≡ m.nextid + n)
  unfolding spawn spawn_one
  spawn-length zero m v room = (omega arith, omega arith)
  spawn-length (suc n) m v room =
      let x : Worker = record { wid = m.nextid; creation = now; process = process_of m.nextid } in
      let one = spawn_one now process_of m in
      let next : one.nextid ≡ m.nextid + 1 = omega arith in
      let grown : length one.worker ≡ length m.worker + 1 =
        ground (arith, length-insert m.nextid x m.worker, v.fresh m.nextid) in
      let rest =
        spawn-length n one (spawn_one-IsStaffed now process_of m v (omega arith)) (omega arith) in
      (omega arith, omega arith)

  pub increase-IsStaffed :
      (n : ℕ) (m : RedirectorManager)
      → IsStaffed m
      → m.nextid + n < maxint
      → IsStaffed (increase now process_of n m)
  unfolding increase increase_one spawn
  increase-IsStaffed zero m v room = v
  increase-IsStaffed (suc n) m v room =
      let next : (increase_one now process_of m).nextid ≤ m.nextid + 1 =
        ground (arith, spawn-length 1 m v (omega arith)) in
      increase-IsStaffed n (increase_one now process_of m)
        (if_keeps (ltb (length m.worker) m.high) (spawn now process_of 1 m) m
          (spawn-IsStaffed now process_of 1 m v (omega arith)) v)
        (omega arith)

  made_up-IsStaffed :
      (m : RedirectorManager)
      → IsStaffed m
      → m.nextid + m.low < maxint
      → IsStaffed (made_up now process_of m)
  made_up-IsStaffed m v room =
      if_keeps (ltb (length m.worker) m.low) (spawn now process_of (m.low - length m.worker) m) m
        (spawn-IsStaffed now process_of (m.low - length m.worker) m v (omega arith)) v

  made_up-length :
      (m : RedirectorManager)
      → IsStaffed m
      → m.nextid + m.low < maxint
      → (length (made_up now process_of m).worker ≡ max (length m.worker) m.low)
        × ((made_up now process_of m).nextid ≤ m.nextid + m.low)
  made_up-length m v room =
      let more = spawn-length (m.low - length m.worker) m v (omega arith) in
      (ground (arith, more), ground (arith, more))

  pub provision-IsStaffed :
      (m : RedirectorManager)
      → IsStaffed m
      → m.nextid + m.low + max 1 m.low < maxint
      → IsStaffed (provision now process_of m)
  unfolding provision
  provision-IsStaffed m v room =
      let n = made_up now process_of m in
      let full = made_up-IsStaffed m v (omega arith) in
      let size = made_up-length m v (omega arith) in
      let add = nb_to_add now process_of m (length m.worker) in
      if_keeps (leb (length m.worker) (length m.queue)) _ n
        (if_keeps (leb m.high (length m.worker)) n (spawn now process_of add n) full
          (spawn-IsStaffed now process_of add n full (omega (arith, size))))
        full

  provision-cases :
      (m : RedirectorManager)
      → IsStaffed m
      → m.nextid + m.low + max 1 m.low < maxint
      → length (provision now process_of m).worker
        ≡ max (length m.worker) m.low
          + (if leb (length m.worker) (length m.queue)
              then (if leb m.high (length m.worker)
                  then 0
                  else nb_to_add now process_of m (length m.worker))
              else 0)
  unfolding provision
  provision-cases m v room =
      let n = made_up now process_of m in
      let full = made_up-IsStaffed m v (omega arith) in
      let size = made_up-length m v (omega arith) in
      let add = nb_to_add now process_of m (length m.worker) in
      let more = spawn-length add n full (omega (arith, size)) in ground (arith, size, more)

  -- From sets of workers that agree, with ids to spare, the minimum below the maximum and no more
  -- workers than the maximum, provisioning ends with no more than the maximum.
  pub provision-within :
      (m : RedirectorManager)
      → IsStaffed m
      → m.nextid + m.low + max 1 m.low < maxint
      → m.low < m.high
      → length m.worker ≤ m.high
      → length (provision now process_of m).worker ≤ m.high
  provision-within m v room apart few = ground (arith, provision-cases m v room)

  -- From sets of workers that agree, with ids to spare, between equal bounds, with fewer workers
  -- than the minimum and as many requests in the queue as workers, provisioning ends with one
  -- worker more than the maximum.
  pub provision_exceeds :
      (m : RedirectorManager)
      → IsStaffed m
      → m.nextid + m.low + max 1 m.low < maxint
      → m.low ≡ m.high
      → length m.worker < m.low
      → length m.worker ≤ length m.queue
      → length (provision now process_of m).worker ≡ m.high + 1
  provision_exceeds m v room equal short waiting = ground (arith, provision-cases m v room)

  pub respawn-IsStaffed :
      (m : RedirectorManager)
      → IsStaffed m
      → m.nextid + max m.low m.high < maxint
      → IsStaffed (respawn now process_of m)
  unfolding respawn
  respawn-IsStaffed m v room =
      spawn-IsStaffed now process_of (max (min (length m.worker) m.high) m.low)
        (each_worker stop_worker m.worker m)
        (each_worker-IsStaffed stop_worker stop_worker-IsStaffed m.worker m v)
        (omega (arith, each_worker-nextid m.worker m))
