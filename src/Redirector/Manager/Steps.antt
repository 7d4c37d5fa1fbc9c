-- ===== src/Redirector/Manager/Steps.antt =====
-- The calls that the reactor makes on the manager, as steps.
use exaproxy.Common.{ℕ, ◌+◌, ◌-◌, ◌<◌, Bool, Option, arith, number_key, length, max}
use exaproxy.Dict.{Dict}
use exaproxy.Redirector.Manager.{
  RedirectorManager, maxint, Job, Decided, reap, start, startup, increase, provision, decrease,
  deprovision, kill_workers, respawn, stop, request, do_queue, get_decision,
}
use exaproxy.Redirector.Manager.Staffed.{IsStaffed, reap-IsStaffed, spawn-IsStaffed}
use exaproxy.Redirector.Manager.Requests.{request-Keeps}
use exaproxy.Redirector.Manager.Queue.{do_queue-Keeps, get_decision-Keeps}
use exaproxy.Redirector.Manager.Sizes.{
  increase-IsStaffed, provision-IsStaffed, decrease-IsStaffed, deprovision-IsStaffed,
  respawn-IsStaffed, each_worker-IsStaffed, stop-IsStaffed,
}

pub data Event : Type 0 where
  starts starts_up provisions respawns deprovisions kills stops queues : Event
  increases decreases : ℕ → Event
  requests : Job → Event
  answers : ℕ → Decided → Event

module _ (now : ℕ) (process_of : ℕ → Option ℕ) (pick : Dict ℕ Bool → ℕ)
    (decide : ℕ → Job → Decided) where
  unfoldable pub step : Event → RedirectorManager → RedirectorManager
  step starts m = start now process_of m
  step starts_up m = startup now process_of m
  step provisions m = provision now process_of m
  step respawns m = respawn now process_of m
  step deprovisions m = deprovision now m
  step kills m = kill_workers m
  step stops m = (stop m).1
  step queues m = (do_queue pick decide m).1
  step (increases n) m = increase now process_of n m
  step (decreases n) m = decrease now n m
  step (requests job) m = (request pick decide job m).1
  step (answers pipe answer) m = (get_decision pick decide pipe answer m).1

-- how many ids a call may use
unfoldable pub forks : Event → RedirectorManager → ℕ
forks starts m = m.low
forks starts_up m = m.low
forks provisions m = m.low + max 1 m.low
forks respawns m = max m.low m.high
forks (increases n) m = n
forks _ m = 0

module _ (now : ℕ) (process_of : ℕ → Option ℕ) (pick : Dict ℕ Bool → ℕ)
    (decide : ℕ → Job → Decided) where
  -- No call of the reactor, whatever the workers decide, breaks the sets of workers, where the ids
  -- that it may use do not wrap: only workers that exist are available or hold a request, none
  -- does both, one is marked for stopping only while it holds a request, and the next id is above
  -- those of all workers.
  pub step-IsStaffed :
      (e : Event) (m : RedirectorManager)
      → IsStaffed m
      → m.nextid + forks e m < maxint
      → IsStaffed (step now process_of pick decide e m)
  unfolding step forks start startup kill_workers
  step-IsStaffed starts m v room =
      spawn-IsStaffed now process_of (m.low - length m.worker) m v (omega arith)
  step-IsStaffed starts_up m v room = spawn-IsStaffed now process_of m.low m v room
  step-IsStaffed provisions m v room = provision-IsStaffed now process_of m v (omega arith)
  step-IsStaffed respawns m v room = respawn-IsStaffed now process_of m v room
  step-IsStaffed deprovisions m v room = deprovision-IsStaffed now m v
  step-IsStaffed kills m v room = each_worker-IsStaffed reap reap-IsStaffed m.worker m v
  step-IsStaffed stops m v room = stop-IsStaffed m v
  step-IsStaffed queues m v room = (do_queue-Keeps pick decide m v).staffed
  step-IsStaffed (increases n) m v room = increase-IsStaffed now process_of n m v room
  step-IsStaffed (decreases n) m v room = decrease-IsStaffed now n m v
  step-IsStaffed (requests job) m v room = (request-Keeps pick decide job m v).staffed
  step-IsStaffed (answers pipe answer) m v room =
      (get_decision-Keeps pick decide pipe answer m v).staffed
