-- ===== src/Redirector/Manager/Tests.antt =====
-- The redirector manager's theorems at concrete inputs, and short runs of it.
use exaproxy.Common.{
  ℕ, ◌≡◌, ◌≤◌, ◌+◌, refl, false, Bool, Option, some, [], ◌∷◌, arith, number_key, length,
}
use exaproxy.Dict.{Dict, lookup, insert, remove, contains}
use exaproxy.Redirector.Manager.{
  RedirectorManager, Job, Decided, deferred, create, spawn, spawn_one, request, acquire,
  acquire_loop, provision,
}
use exaproxy.Redirector.Manager.Staffed.{IsStaffed, create-IsStaffed, spawn-IsStaffed}
use exaproxy.Redirector.Manager.Steps.{step, forks, requests, step-IsStaffed}
use exaproxy.Redirector.Manager.Answers.{IsPending, request-IsPending}
use exaproxy.Redirector.Manager.Sizes.{provision-within, provision_exceeds}

abbrev piped : ℕ → Option ℕ
piped wid = some (wid + 50)

-- the first element of a set, and a worker that always waits for its process
abbrev first_of : Dict ℕ Bool → ℕ
first_of [] = 0
first_of ((k, b) ∷ l) = k

abbrev waits : ℕ → Job → Decided
waits wid job = deferred job.header

abbrev job : Job
job = record { client = 9; header = 71 ∷ []; tainted = false }

-- Two workers, of four at most.
abbrev staff : RedirectorManager
staff = spawn 100 piped 2 (create 2 4)

staff-IsStaffed : IsStaffed staff
unfolding create
staff-IsStaffed = spawn-IsStaffed 100 piped 2 (create 2 4) (create-IsStaffed 2 4) (omega arith)

step-IsStaffed_example : IsStaffed (step 100 piped first_of waits (requests job) staff)
unfolding create spawn spawn_one forks
step-IsStaffed_example =
    step-IsStaffed 100 piped first_of waits (requests job) staff staff-IsStaffed (omega arith)

request-IsPending_example : IsPending waits job (request first_of waits job staff).1
unfolding create spawn spawn_one request acquire acquire_loop contains lookup insert remove
request-IsPending_example = request-IsPending first_of waits job staff staff-IsStaffed refl

provision-within_example : length (provision 100 piped staff).worker ≤ 4
unfolding create spawn spawn_one insert
provision-within_example =
    provision-within 100 piped staff staff-IsStaffed (omega arith) (omega arith) (omega arith)

-- No worker yet, between equal bounds.
provision_exceeds_example : length (provision 100 piped (create 2 2)).worker ≡ 3
unfolding create
provision_exceeds_example =
    provision_exceeds 100 piped (create 2 2) (create-IsStaffed 2 2) (omega arith) refl (omega arith)
      (omega arith)
