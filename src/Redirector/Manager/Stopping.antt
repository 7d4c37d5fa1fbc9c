-- ===== src/Redirector/Manager/Stopping.antt =====
-- `stop`, which takes workers out of the dictionary that it iterates over.
use exaproxy.Common.{
  ℕ, ◌≡◌, refl, ap, ◌∙◌, if◌then◌else◌, true, false, ◌∷◌, arith, nat_beq, nat_beq_iff, number_key,
}
use exaproxy.Dict.{Dict, contains, contains-remove, contains-lookup}
use exaproxy.Redirector.Manager.{RedirectorManager, Worker, reap, stop}

worker-reap :
    (wid k : ℕ) (m : RedirectorManager)
    → contains k (reap wid m).worker ≡ (if nat_beq wid k then false else contains k m.worker)
unfolding reap
worker-reap wid k m =
    ground (arith, contains-remove wid k m.worker, contains-lookup wid m.worker, nat_beq_iff wid k)

-- Stopping a manager that has workers raises, after the first of them was reaped; every other
-- worker is still there.
pub stop_raises :
    (m : RedirectorManager) (first : ℕ) (w : Worker) (rest : Dict ℕ Worker)
    → m.worker ≡ (first, w) ∷ rest
    → ((stop m).0 ≡ true)
      × ((k : ℕ)
          → contains k (stop m).1.worker ≡ (if nat_beq first k then false else contains k m.worker))
unfolding stop
stop_raises m first w rest h =
    rw (h, stop)
      (
        refl,
        λ k. worker-reap first k m ∙ ap (λ d. if nat_beq first k then false else contains k d) h,
      )
