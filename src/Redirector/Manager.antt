-- ===== src/Redirector/Manager.antt =====
-- lib/exaproxy/reactor/redirector/manager.py, class `RedirectorManager`. A worker id is the number
-- that `str(self.nextid)` prints. `process_of` gives the output descriptor of the process that a new
-- worker forks (`none` where no program is set), `pick` the element that `set.pop` takes, and
-- `decide` what a worker answers; times are arguments. The calls on the poller are kept in `calls`,
-- newest first, and the workers that were shut down in `shut`.
pub mod Staffed
pub mod Requests
pub mod Queue
pub mod Sizes
pub mod Steps
pub mod Answers
pub mod Acquire
pub mod Stopping
mod Tests
use exaproxy.Common.{
  ℕ, zero, suc, ◌+◌, ◌-◌, ◌/◌, ◌%◌, ◌^◌, Bool, true, false, not, ◌&&◌, ◌||◌, Option, none, some,
  List, [], ◌∷◌, ◌++◌, if◌then◌else◌, number_key, ◌==◌, length, ltb, leb, min, max,
}
use exaproxy.Dict.{Dict, lookup, insert, remove, contains}
use exaproxy.Poller.Epoll.{Call, add_read, remove_read}

abbrev pub maxint : ℕ
maxint = 2 ^ 63 - 1

pub record Worker : Type 0 where
  pub wid : ℕ
  pub creation : ℕ
  pub process : Option ℕ

-- A request: the client, what it sent, and whether a worker has failed on it already.
pub record Job : Type 0 where
  pub client : ℕ
  pub header : List ℕ
  pub tainted : Bool

-- What a worker decides: nothing (it failed), to wait for its process, or a command.
pub data Decided : Type 0 where
  failed : Decided
  deferred : List ℕ → Decided
  command : List ℕ → Decided

-- What the manager answers: nothing yet, a command, or `Respond.close`.
pub data Answer : Type 0 where
  later closed : Answer
  decided : List ℕ → Answer

-- `sys.maxint` bounds the ids; a set is a dictionary of its elements.
pub record RedirectorManager : Type 0 where
  pub low : ℕ
  pub high : ℕ
  pub queue : List Job
  pub nextid : ℕ
  pub worker : Dict ℕ Worker
  pub processes : Dict ℕ ℕ
  pub available : Dict ℕ Bool
  pub active : Dict ℕ (Job × List ℕ)
  pub stopping : Dict ℕ Bool
  pub calls : List Call
  pub shut : List ℕ

unfoldable pub create : ℕ → ℕ → RedirectorManager
create low high = record {
  low = low;
  high = high;
  queue = [];
  nextid = 1;
  worker = [];
  processes = [];
  available = [];
  active = [];
  stopping = [];
  calls = [];
  shut = [];
}

-- `self.worker.pop(wid)` and what follows it in `reap`
abbrev reaped : Worker → ℕ → RedirectorManager → RedirectorManager
reaped w wid m = record m {
  active = remove wid m.active;
  stopping = remove wid m.stopping;
  available = remove wid m.available;
  worker = remove wid m.worker;
  processes = elim w.process [ none ↦ m.processes | some fd ↦ remove fd m.processes ];
  calls = elim w.process [ none ↦ m.calls | some fd ↦ remove_read "read_workers" fd ∷ m.calls ];
  shut = wid ∷ m.shut;
}

unfoldable pub reap : ℕ → RedirectorManager → RedirectorManager
reap wid m = elim (lookup wid m.worker) [ none ↦ m | some w ↦ reaped w wid m ]

unfoldable pub stop_worker : ℕ → RedirectorManager → RedirectorManager
stop_worker wid m =
    if contains wid m.active then record m { stopping = insert wid true m.stopping } else reap wid m

unfoldable pub release : ℕ → RedirectorManager → RedirectorManager
release wid m =
    if contains wid m.worker
    then (if contains wid m.stopping
        then reap wid m
        else record m { available = insert wid true m.available })
    else m

module _ (now : ℕ) (process_of : ℕ → Option ℕ) where
  unfoldable pub spawn_one : RedirectorManager → RedirectorManager
  spawn_one m =
      let w : Worker = record { wid = m.nextid; creation = now; process = process_of m.nextid } in
      record m {
        nextid = (m.nextid + 1) % maxint;
        worker = insert m.nextid w m.worker;
        available = insert m.nextid true m.available;
        processes = elim (process_of m.nextid) [
          | none ↦ m.processes
          | some fd ↦ insert fd m.nextid m.processes
        ];
        calls = elim (process_of m.nextid) [
          | none ↦ m.calls
          | some fd ↦ add_read "read_workers" fd ∷ m.calls
        ];
      }

  unfoldable pub spawn : ℕ → RedirectorManager → RedirectorManager
  spawn zero m = m
  spawn (suc n) m = spawn n (spawn_one m)

  unfoldable pub start : RedirectorManager → RedirectorManager
  start m = spawn (m.low - length m.worker) m

  unfoldable pub startup : RedirectorManager → RedirectorManager
  startup m = spawn m.low m

  unfoldable pub increase_one : RedirectorManager → RedirectorManager
  increase_one m = if ltb (length m.worker) m.high then spawn 1 m else m

  unfoldable pub increase : ℕ → RedirectorManager → RedirectorManager
  increase zero m = m
  increase (suc n) m = increase n (increase_one m)

  -- how many workers `provision` adds, with the count of workers that it read when it began
  abbrev nb_to_add : RedirectorManager → ℕ → ℕ
  nb_to_add m num_workers = min (max 1 (min m.low ((m.high - m.low) / 4))) (m.high - num_workers)

  -- `bad we are bleeding workers`
  abbrev made_up : RedirectorManager → RedirectorManager
  made_up m = if ltb (length m.worker) m.low then spawn (m.low - length m.worker) m else m

  -- `num_workers` is read once, before the workers below the minimum are made up for.
  unfoldable pub provision : RedirectorManager → RedirectorManager
  provision m =
      let num_workers = length m.worker in
      let n = made_up m in
      if leb num_workers (length m.queue)
      then (if leb m.high num_workers then n else spawn (nb_to_add m num_workers) n)
      else n

-- the loop of `_oldest`, with the best worker so far
unfoldable pub older : Dict ℕ Bool → Dict ℕ Worker → ℕ → Option ℕ → Option ℕ
older stopping [] past oldest = oldest
older stopping ((wid, w) ∷ rest) past oldest =
    let better = ltb w.creation past && not (contains wid stopping) in
    older stopping rest (if better then w.creation else past) (if better then some wid else oldest)

unfoldable pub oldest : ℕ → RedirectorManager → Option ℕ
unfolding older
oldest now m = older m.stopping m.worker now none

abbrev stop_some : Option ℕ → RedirectorManager → RedirectorManager
stop_some none m = m
stop_some (some wid) m = stop_worker wid m

unfoldable pub decrease_one : ℕ → RedirectorManager → RedirectorManager
decrease_one now m = if ltb m.low (length m.worker) then stop_some (oldest now m) m else m

unfoldable pub decrease : ℕ → ℕ → RedirectorManager → RedirectorManager
decrease now zero m = m
decrease now (suc n) m = decrease now n (decrease_one now m)

unfoldable pub deprovision : ℕ → RedirectorManager → RedirectorManager
deprovision now m =
    if length m.queue == 0 && ltb m.low (length m.worker) then stop_some (oldest now m) m else m

-- `for wid in set(self.worker)`: the keys are those from before the loop
abbrev each_worker :
    (ℕ → RedirectorManager → RedirectorManager)
    → Dict ℕ Worker
    → RedirectorManager
    → RedirectorManager
each_worker f [] m = m
each_worker f ((wid, w) ∷ rest) m = each_worker f rest (f wid m)

unfoldable pub kill_workers : RedirectorManager → RedirectorManager
kill_workers m = each_worker reap m.worker m

unfoldable pub respawn : ℕ → (ℕ → Option ℕ) → RedirectorManager → RedirectorManager
respawn now process_of m =
    spawn now process_of (max (min (length m.worker) m.high) m.low)
      (each_worker stop_worker m.worker m)

-- `for wid in self.worker: self.reap(wid)` takes keys out of the dictionary that it iterates over,
-- so that Python raises a RuntimeError when the first worker is gone; the flag says so.
unfoldable pub stop : RedirectorManager → Bool × RedirectorManager
stop m = elim m.worker [ [] ↦ (false, m) | (wid, w) ∷ rest ↦ (true, reap wid m) ]

module _ (pick : Dict ℕ Bool → ℕ) where
  -- `set.pop()` of a set that is not empty
  abbrev popped : ℕ → Dict ℕ Bool → ℕ
  popped first l = if contains (pick l) l then pick l else first

  -- The loop of `acquire`, on fuel; it ends when the set is empty or a worker was found.
  unfoldable pub acquire_loop : ℕ → Dict ℕ Worker → Dict ℕ Bool → Option ℕ × Dict ℕ Bool
  acquire_loop zero worker l = (none, l)
  acquire_loop (suc fuel) worker [] = (none, [])
  acquire_loop (suc fuel) worker ((first, b) ∷ l) =
      let wid = popped first ((first, b) ∷ l) in
      let left = remove wid ((first, b) ∷ l) in
      let rest = acquire_loop fuel worker left in
      if contains wid worker then (some wid, left) else rest

  unfoldable pub acquire : RedirectorManager → Option ℕ × RedirectorManager
  unfolding acquire_loop
  acquire m =
      let (wid, left) = acquire_loop (length m.available) m.worker m.available in
      (wid, record m { available = left })

  module _ (decide : ℕ → Job → Decided) where
    -- the end of `request`, for a worker that answered
    abbrev settle : ℕ → Job → Decided → RedirectorManager → Answer × RedirectorManager
    settle wid job failed m = (closed, m)
    settle wid job (deferred waiting) m =
        (later, record m { active = insert wid (job, waiting) m.active })
    settle wid job (command c) m = (decided c, release wid m)

    abbrev queued : Job → RedirectorManager → Answer × RedirectorManager
    queued job m = (later, record m { queue = m.queue ++ job ∷ [] })

    -- A request that a worker failed on before: a second failure closes the client.
    unfoldable pub request_tainted : Job → RedirectorManager → Answer × RedirectorManager
    request_tainted job m =
        let (found, n) = acquire m in
        elim found [
          | none ↦ queued job n
          | some wid ↦ elim (decide wid job) [
            | failed ↦ (closed, release wid (reap wid n))
            | deferred w ↦ settle wid job (deferred w) n
            | command c ↦ settle wid job (command c) n
          ]
        ]

    -- The worker that failed is reaped, and the request tried once more on another.
    unfoldable pub request : Job → RedirectorManager → Answer × RedirectorManager
    request job m =
        let (found, n) = acquire m in
        elim found [
          | none ↦ queued job n
          | some wid ↦ elim (decide wid job) [
            | failed ↦
                if job.tainted
                then (closed, release wid (reap wid n))
                else (let (answer, after) =
                      request_tainted (record job { tainted = true }) (reap wid n) in
                    (answer, release wid after))
            | deferred w ↦ settle wid job (deferred w) n
            | command c ↦ settle wid job (command c) n
          ]
        ]

    -- `none` is no client, where nothing was taken from the queue
    abbrev dequeue :
        Dict ℕ Bool → List Job → RedirectorManager → Option (ℕ × Answer) × RedirectorManager
    dequeue [] queue m = (none, m)
    dequeue (x ∷ l) [] m = (none, m)
    dequeue (x ∷ l) (job ∷ rest) m =
        let (answer, n) = request job (record m { queue = rest }) in (some (job.client, answer), n)

    unfoldable pub do_queue : RedirectorManager → Option (ℕ × Answer) × RedirectorManager
    do_queue m = dequeue m.available m.queue m

    -- the end of `getDecision`, once the worker was released
    abbrev conclude :
        ℕ → Job → Decided → RedirectorManager → Option (ℕ × Answer) × RedirectorManager
    conclude wid job failed n =
        if job.tainted
        then (some (job.client, closed), reap wid n)
        else (let (again, after) = request_tainted (record job { tainted = true }) (reap wid n) in
            (some (job.client, again), after))
    conclude wid job (deferred w) n = (some (job.client, decided w), n)
    conclude wid job (command c) n = (some (job.client, decided c), n)

    -- The process behind `pipe_in` has answered; `answer` is what its worker makes of that.
    unfoldable pub get_decision :
        ℕ → Decided → RedirectorManager → Option (ℕ × Answer) × RedirectorManager
    get_decision pipe_in answer m = elim (lookup pipe_in m.processes) [
      | none ↦ (none, m)
      | some wid ↦ elim (lookup wid m.active) [
        | none ↦ (none, reap wid m)
        | some (job, waiting) ↦
            conclude wid job answer (release wid (record m { active = remove wid m.active }))
      ]
    ]
