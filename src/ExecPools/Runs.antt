-- ===== src/ExecPools/Runs.antt =====
-- Pools of ts-code/lib-common/processes/labelled-exec-pools.ts at concrete inputs.
use core_3nweb_client_lib.Base.{ℕ, ◌≡◌, refl, true, false, Option, some, [], ◌∷◌, All}
use core_3nweb_client_lib.ExecPools.{
  ProcessingPool, LabelledExecPools, make_pool, add, start, process_ends, stop_all, pause_all,
}
use core_3nweb_client_lib.ExecPools.Busy.{IsGood, here, next, adds, ends, starts, PoolReach-IsGood}
use core_3nweb_client_lib.ExecPools.Stopping.{IsStopped, stop_all-pause_all}

-- All tasks need the pool with label 1.
abbrev needs_one : ℕ → Option ℕ
needs_one task = some 1

-- Three tasks for two processes; the first is not done when its processing ends.
abbrev working : ProcessingPool
unfolding make_pool add start process_ends
working =
    process_ends needs_one
      (add needs_one (start needs_one (add needs_one (add needs_one (make_pool 1 2) 5) 6)) 7) 5
      false

working_on : working.in_process ≡ 5 ∷ 6 ∷ []
unfolding working
working_on = refl

PoolReach-IsGood_example : IsGood working
unfolding working make_pool add start
PoolReach-IsGood_example = PoolReach-IsGood 1 2 (
    next
      (next (next (next (next here (adds needs_one 5)) (adds needs_one 6)) (starts needs_one))
        (adds needs_one 7))
      (ends needs_one 5 false refl))

abbrev one_pool : LabelledExecPools
unfolding working
one_pool = record { pools = working ∷ []; is_running = true }

stop_all-pause_all_example :
    All IsStopped (stop_all one_pool).pools × ((stop_all (pause_all one_pool)).pools ≡ working ∷ [])
unfolding one_pool
stop_all-pause_all_example = stop_all-pause_all one_pool refl
