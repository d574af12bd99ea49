-- ===== src/ExecPools/Busy.antt =====
-- What holds of a pool through all its steps, of ts-code/lib-common/processes/labelled-exec-pools.ts.
use core_3nweb_client_lib.Base.{
  ℕ, zero, suc, ◌+◌, ◌≤◌, ◌<◌, min, ◌≡◌, refl, sym, subst, ◌∙◌, arith, Bool, true, false, not, ◌||◌,
  Option, some, List, [], ◌∷◌, ◌++◌, includes, leb, ◌=?=◌, if◌then◌else◌, length, length-append,
  Bool-cases, ◌⊎◌, inl, inr, if_cases,
}
use core_3nweb_client_lib.ExecPools.{
  ProcessingPool, take_next, process_next_queued, add, without_one, process_ends, pause,
  trigger_times, start, stop, make_pool,
}

-- No more tasks are in process than the pool may have.
abbrev pub IsWithin : ProcessingPool → Type 0
IsWithin p = length p.in_process ≤ p.max_procs

abbrev pub IsFull : ProcessingPool → Type 0
IsFull p = p.max_procs ≤ length p.in_process

-- A running pool has no task in its queue, unless all its processes are taken.
abbrev pub IsBusy : ProcessingPool → Type 0
IsBusy p = IsFull p ⊎ (p.queue ≡ [])

abbrev pub IsGood : ProcessingPool → Type 0
IsGood p = IsWithin p × (p.is_running ≡ true → IsBusy p)

-- What taking from a queue does: it takes a task, or it empties the queue.
abbrev IsTaken : ProcessingPool → ℕ → ProcessingPool → Type 0
IsTaken p queued p' =
    (p'.max_procs ≡ p.max_procs)
    × (p'.is_running ≡ p.is_running)
    × (((length p'.in_process ≡ suc (length p.in_process)) × (length p'.queue < queued))
        ⊎ ((length p'.in_process ≡ length p.in_process) × (p'.queue ≡ [])))

take_next-IsTaken :
    (needs : ℕ → Option ℕ) (p : ProcessingPool) (queue : List ℕ)
    → IsTaken p (length queue) (take_next needs p queue)
unfolding take_next
take_next-IsTaken needs p [] = (refl, refl, inr (refl, refl))
take_next-IsTaken needs p (task ∷ rest) =
    if_cases (IsTaken p (suc (length rest))) (needs task =?= some p.label)
      (λ _. (refl, refl, inl (refl, omega arith)))
      (λ _. later (take_next needs p rest) (take_next-IsTaken needs p rest))
  where
    later : (p' : ProcessingPool) → IsTaken p (length rest) p' → IsTaken p (suc (length rest)) p'
    later p' (m, r, inl (grown, shorter)) = (m, r, inl (grown, omega (arith, shorter)))
    later p' (m, r, inr same) = (m, r, inr same)

-- The guard of `processNextQueued`.
guard_passed :
    (p : ProcessingPool)
    → p.is_running ≡ true
    → length p.in_process < p.max_procs
    → (not p.is_running || leb p.max_procs (length p.in_process)) ≡ false
guard_passed p running room = ground (arith, running)

guard_full :
    (p : ProcessingPool)
    → IsFull p
    → (not p.is_running || leb p.max_procs (length p.in_process)) ≡ true
guard_full p full = ground arith

-- One call for a running pool that has room.
process_next-IsTaken :
    (needs : ℕ → Option ℕ) (p : ProcessingPool)
    → p.is_running ≡ true
    → length p.in_process < p.max_procs
    → IsTaken p (length p.queue) (process_next_queued needs p)
unfolding process_next_queued
process_next-IsTaken needs p running room =
    rw (process_next_queued, guard_passed p running room) (take_next-IsTaken needs p p.queue)

process_next-full :
    (needs : ℕ → Option ℕ) (p : ProcessingPool) → IsFull p → process_next_queued needs p ≡ p
unfolding process_next_queued
process_next-full needs p full = rw (process_next_queued, guard_full p full) refl

no_longer_than_none : (xs : List ℕ) → length xs ≤ 0 → xs ≡ []
no_longer_than_none [] h = refl
no_longer_than_none (x ∷ xs) h = absurd (omega arith)

-- So many calls take all of the queue or fill the pool.
abbrev IsNear : ℕ → ProcessingPool → Type 0
IsNear n p = (p.max_procs ≤ n + length p.in_process) ⊎ (length p.queue ≤ n)

taken-IsNear :
    (n : ℕ) (p p' : ProcessingPool)
    → IsTaken p (length p.queue) p'
    → length p.in_process < p.max_procs
    → IsNear (suc n) p
    → IsWithin p' × IsNear n p'
taken-IsNear n p p' (m, r, inl (grown, shorter)) room (inl near) =
    (omega (arith, m, grown, room), inl (omega (arith, m, grown, near)))
taken-IsNear n p p' (m, r, inl (grown, shorter)) room (inr near) =
    (omega (arith, m, grown, room), inr (omega (arith, shorter, near)))
taken-IsNear n p p' (m, r, inr (same, empty)) room near =
    (omega (arith, m, same, room), inr (rw empty (omega arith)))

trigger_times-IsGood :
    (needs : ℕ → Option ℕ) (n : ℕ) (p : ProcessingPool)
    → p.is_running ≡ true
    → IsWithin p
    → IsNear n p
    → IsGood (trigger_times needs n p)
unfolding trigger_times
trigger_times-IsGood needs zero p running within (inl near) =
    (within, λ _. inl (omega (arith, near)))
trigger_times-IsGood needs zero p running within (inr near) =
    (within, λ _. inr (no_longer_than_none p.queue near))
trigger_times-IsGood needs (suc n) p running within near =
    elim (Bool-cases (leb p.max_procs (length p.in_process))) [
      | inl full ↦
          subst (λ (q : ProcessingPool). IsGood (trigger_times needs n q))
            (sym (process_next-full needs p (ground (arith, full))))
            (trigger_times-IsGood needs n p running within (inl (ground (arith, full))))
      | inr room ↦
          let p' = process_next_queued needs p in
          let t = process_next-IsTaken needs p running (ground (arith, room)) in
          let (within', near') = taken-IsNear n p p' t (ground (arith, room)) near in
          trigger_times-IsGood needs n p' (t.1 ∙ running) within' near'
    ]

process_next-IsGood :
    (needs : ℕ → Option ℕ) (p : ProcessingPool)
    → p.is_running ≡ true
    → IsWithin p
    → IsNear 1 p
    → IsGood (process_next_queued needs p)
unfolding trigger_times
process_next-IsGood needs p running within near = trigger_times-IsGood needs 1 p running within near

-- A call for a pool that does not run changes nothing.
process_next_stopped :
    (needs : ℕ → Option ℕ) (p : ProcessingPool)
    → p.is_running ≡ false
    → process_next_queued needs p ≡ p
unfolding process_next_queued
process_next_stopped needs p stopped = rw (process_next_queued, stopped) refl

stopped-IsGood : (p : ProcessingPool) → p.is_running ≡ false → IsWithin p → IsGood p
stopped-IsGood p stopped within = (within, λ running. cc (stopped, running))

-- A busy pool is near after one task more is put in its queue.
busy-IsNear :
    (p p' : ProcessingPool)
    → IsBusy p
    → p'.max_procs ≡ p.max_procs
    → length p.in_process ≤ suc (length p'.in_process)
    → length p'.queue ≤ suc (length p.queue)
    → IsNear 1 p'
busy-IsNear p p' (inl full) m fewer more = inl (omega (arith, full, m, fewer))
busy-IsNear p p' (inr empty) m fewer more = inr (by_empty p.queue empty more)
  where
    by_empty :
        (queue : List ℕ) → queue ≡ [] → length p'.queue ≤ suc (length queue) → length p'.queue ≤ 1
    by_empty [] e h = h
    by_empty (x ∷ xs) e h = cc

add-IsGood :
    (needs : ℕ → Option ℕ) (p : ProcessingPool) (task : ℕ) → IsGood p → IsGood (add needs p task)
unfolding add
add-IsGood needs p task (within, busy) =
    let p' = record p { queue = p.queue ++ task ∷ [] } in
    if_cases IsGood p.is_running
      (λ running. process_next-IsGood needs p' running within (
        busy-IsNear p p' (busy running) refl (omega arith)
          (omega (arith, length-append p.queue (task ∷ [])))))
      (λ stopped. stopped-IsGood p' stopped within)

length-without_one :
    (ts : List ℕ) (task : ℕ)
    → includes ts task ≡ true
    → suc (length (without_one ts task)) ≡ length ts
unfolding without_one
length-without_one [] task h = cc
length-without_one (t ∷ ts) task h = ground (arith, length-without_one ts task)

length-requeued :
    (done : Bool) (task : ℕ) (queue : List ℕ)
    → length (if done then queue else task ∷ queue) ≤ suc (length queue)
length-requeued done task queue =
    if_cases (λ (q : List ℕ). length q ≤ suc (length queue)) done (λ _. omega arith)
      (λ _. omega arith)

process_ends-IsGood :
    (needs : ℕ → Option ℕ) (p : ProcessingPool) (task : ℕ) (done : Bool)
    → includes p.in_process task ≡ true
    → IsGood p
    → IsGood (process_ends needs p task done)
unfolding process_ends
process_ends-IsGood needs p task done inside (within, busy) =
    let fewer = length-without_one p.in_process task inside in
    let p' = record p {
      queue = if done then p.queue else task ∷ p.queue;
      in_process = without_one p.in_process task;
    } in
    elim (Bool-cases p.is_running) [
      | inl running ↦ process_next-IsGood needs p' running (omega (arith, fewer, within)) (
          busy-IsNear p p' (busy running) refl (omega (arith, fewer))
            (length-requeued done task p.queue))
      | inr stopped ↦
          rw (process_next_stopped needs p' stopped)
            (stopped-IsGood p' stopped (omega (arith, fewer, within)))
    ]

start-IsGood : (needs : ℕ → Option ℕ) (p : ProcessingPool) → IsGood p → IsGood (start needs p)
unfolding start
start-IsGood needs p (within, busy) =
    trigger_times-IsGood needs (min p.max_procs (length p.queue)) (record p { is_running = true })
      refl within (near p.max_procs (length p.queue))
  where
    near :
        (max_procs queued : ℕ)
        → (max_procs ≤ min max_procs queued + length p.in_process) ⊎ (queued ≤ min max_procs queued)
    near max_procs queued = elim (Bool-cases (leb max_procs queued)) [
      | inl h ↦ inl (ground (arith, h))
      | inr h ↦ inr (ground (arith, h))
    ]

stop-IsGood : (p : ProcessingPool) → IsGood p → IsGood (stop p).0
unfolding stop
stop-IsGood p good =
    if_cases (λ (r : ProcessingPool × List ℕ). IsGood r.0) p.is_running
      (λ _. stopped-IsGood (record p { is_running = false; queue = [] }) refl good.0) (λ _. good)

-- The steps of a pool. What tasks need may be different at every step.
pub data PoolStep (p : ProcessingPool) : ProcessingPool → Type 0 where
  adds : (needs : ℕ → Option ℕ) (task : ℕ) → PoolStep p (add needs p task)
  ends :
      (needs : ℕ → Option ℕ) (task : ℕ) (done : Bool)
      → includes p.in_process task ≡ true
      → PoolStep p (process_ends needs p task done)
  pauses : PoolStep p (pause p)
  starts : (needs : ℕ → Option ℕ) → PoolStep p (start needs p)
  stops : PoolStep p (stop p).0

pub data PoolReach (p : ProcessingPool) : ProcessingPool → Type 0 where
  here : PoolReach p p
  next : {q r : ProcessingPool} → PoolReach p q → PoolStep q r → PoolReach p r

PoolStep-IsGood : {p q : ProcessingPool} → PoolStep p q → IsGood p → IsGood q
unfolding pause
PoolStep-IsGood {p} (adds needs task) good = add-IsGood needs p task good
PoolStep-IsGood {p} (ends needs task done inside) good =
    process_ends-IsGood needs p task done inside good
PoolStep-IsGood {p} pauses good = stopped-IsGood (record p { is_running = false }) refl good.0
PoolStep-IsGood {p} (starts needs) good = start-IsGood needs p good
PoolStep-IsGood {p} stops good = stop-IsGood p good

-- A new pool, through any additions, ends of processing, pauses, starts and stops: it never has more
-- tasks in process than it may, and while it runs no task waits in its queue unless all processes
-- are taken.
pub PoolReach-IsGood :
    (label max_procs : ℕ) {p : ProcessingPool} → PoolReach (make_pool label max_procs) p → IsGood p
unfolding make_pool
PoolReach-IsGood label max_procs here = (omega arith, λ _. inr refl)
PoolReach-IsGood label max_procs (next r step) =
    PoolStep-IsGood step (PoolReach-IsGood label max_procs r)
