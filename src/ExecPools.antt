-- ===== src/ExecPools.antt =====
-- Pools that process tasks, of ts-code/lib-common/processes/labelled-exec-pools.ts. A task is an id,
-- and a label is a number. What `neededExecutor` answers may change from one step to the next, so
-- each step is given it as a function. The end of a task's processing is a step of its own.
pub mod Busy
pub mod Stopping
mod Runs
use core_3nweb_client_lib.Base.{
  ℕ, zero, suc, min, Bool, true, false, not, ◌||◌, ◌&&◌, Option, none, some, List, [], ◌∷◌, ◌++◌,
  map, leb, ◌==◌, ◌=?=◌, if◌then◌else◌, length,
}

pub record ProcessingPool : Type 0 where
  pub label : ℕ
  pub max_procs : ℕ
  pub in_process : List ℕ
  pub queue : List ℕ
  pub is_running : Bool

-- The tasks of a queue up to the first that needs this pool; those before it are dropped.
pub take_next : (ℕ → Option ℕ) → ProcessingPool → List ℕ → ProcessingPool
take_next needs p [] = record p { queue = [] }
take_next needs p (task ∷ rest) =
    let next = take_next needs p rest in
    if needs task =?= some p.label
    then record p { queue = rest; in_process = task ∷ p.in_process }
    else next

-- `processNextQueued`, up to the call of `task.process()`.
pub process_next_queued : (ℕ → Option ℕ) → ProcessingPool → ProcessingPool
unfolding take_next
process_next_queued needs p =
    if not p.is_running || leb p.max_procs (length p.in_process)
    then p
    else take_next needs p p.queue

pub add : (ℕ → Option ℕ) → ProcessingPool → ℕ → ProcessingPool
unfolding process_next_queued
add needs p task =
    let p' = record p { queue = p.queue ++ task ∷ [] } in
    if p.is_running then process_next_queued needs p' else p'

-- `inProcess.delete(proc)`: one entry of the task.
pub without_one : List ℕ → ℕ → List ℕ
without_one [] task = []
without_one (t ∷ ts) task = let rest = without_one ts task in if t == task then ts else t ∷ rest

-- The rest of `processNextQueued`, when the processing of a task ends. A task that throws is not
-- processed any more.
pub process_ends : (ℕ → Option ℕ) → ProcessingPool → ℕ → (done : Bool) → ProcessingPool
unfolding without_one process_next_queued
process_ends needs p task done = process_next_queued needs (record p {
  queue = if done then p.queue else task ∷ p.queue;
  in_process = without_one p.in_process task;
})

pub pause : ProcessingPool → ProcessingPool
pause p = record p { is_running = false }

abbrev pub trigger_times : (ℕ → Option ℕ) → ℕ → ProcessingPool → ProcessingPool
unfolding process_next_queued
trigger_times needs zero p = p
trigger_times needs (suc n) p = trigger_times needs n (process_next_queued needs p)

pub start : (ℕ → Option ℕ) → ProcessingPool → ProcessingPool
unfolding trigger_times
start needs p =
    trigger_times needs (min p.max_procs (length p.queue)) (record p { is_running = true })

-- `stop`, with the tasks that it cancels.
pub stop : ProcessingPool → ProcessingPool × List ℕ
stop p = if p.is_running then (record p { is_running = false; queue = [] }, p.queue) else (p, [])

pub make_pool : (label max_procs : ℕ) → ProcessingPool
make_pool label max_procs = record {
  label = label;
  max_procs = max_procs;
  in_process = [];
  queue = [];
  is_running = false;
}

-- `LabelledExecPools`, with its pools in the order of their labels.
pub record LabelledExecPools : Type 0 where
  pub pools : List ProcessingPool
  pub is_running : Bool

abbrev pools_of : List (ℕ × ℕ) → List ProcessingPool
unfolding make_pool
pools_of [] = []
pools_of ((label, max_procs) ∷ setup) = make_pool label max_procs ∷ pools_of setup

-- The constructor; it throws when there is no pool.
unfoldable pub make_pools : List (ℕ × ℕ) → Option LabelledExecPools
unfolding pools_of
make_pools [] = none
make_pools (s ∷ setup) = some (record { pools = pools_of (s ∷ setup); is_running = false })

abbrev has_label : ℕ → List ProcessingPool → Bool
has_label label [] = false
has_label label (p ∷ ps) = p.label == label || has_label label ps

abbrev add_labelled : (ℕ → Option ℕ) → ℕ → ℕ → List ProcessingPool → List ProcessingPool
unfolding add
add_labelled needs label task [] = []
add_labelled needs label task (p ∷ ps) =
    let rest = add_labelled needs label task ps in
    if p.label == label then add needs p task ∷ ps else p ∷ rest

-- `add`, which throws when there is no pool for the task.
unfoldable pub add_task : (ℕ → Option ℕ) → LabelledExecPools → ℕ → Bool → Option LabelledExecPools
unfolding add_labelled
add_task needs s task queue_if_not_running =
    if not s.is_running && not queue_if_not_running then some s else elim (needs task) [
      | none ↦ some s
      | some label ↦
          if has_label label s.pools
          then some (record s { pools = add_labelled needs label task s.pools })
          else none
    ]

unfoldable pub start_all : (ℕ → Option ℕ) → LabelledExecPools → LabelledExecPools
unfolding start
start_all needs s =
    if s.is_running then s else record { pools = map (start needs) s.pools; is_running = true }

pub pause_all : LabelledExecPools → LabelledExecPools
pause_all s = record s { is_running = false }

pub stop_all : LabelledExecPools → LabelledExecPools
unfolding stop
stop_all s =
    if s.is_running
    then record { pools = map (λ (p : ProcessingPool). (stop p).0) s.pools; is_running = false }
    else s
