-- ===== src/ExecPools/Stopping.antt =====
-- Pausing and stopping of all pools, of ts-code/lib-common/processes/labelled-exec-pools.ts.
use core_3nweb_client_lib.Base.{ℕ, ◌≡◌, refl, true, false, List, [], ◌∷◌, map, All, if_cases}
use core_3nweb_client_lib.ExecPools.{ProcessingPool, LabelledExecPools, stop, pause_all, stop_all}

abbrev pub IsStopped : ProcessingPool → Type 0
IsStopped p = p.is_running ≡ false

stop-IsStopped : (p : ProcessingPool) → IsStopped (stop p).0
unfolding stop
stop-IsStopped p =
    if_cases (λ (r : ProcessingPool × List ℕ). IsStopped r.0) p.is_running (λ _. refl) (λ e. e)

map-stop-IsStopped :
    (ps : List ProcessingPool) → All IsStopped (map (λ (p : ProcessingPool). (stop p).0) ps)
map-stop-IsStopped [] = tt
map-stop-IsStopped (p ∷ ps) = (stop-IsStopped p, map-stop-IsStopped ps)

-- For running pools: `stop` leaves no pool running, while `stop` after `pause` changes no pool at
-- all, so that pools that run go on to, with their queues.
pub stop_all-pause_all :
    (s : LabelledExecPools)
    → s.is_running ≡ true
    → All IsStopped (stop_all s).pools × ((stop_all (pause_all s)).pools ≡ s.pools)
unfolding stop_all pause_all
stop_all-pause_all s running = (rw running (map-stop-IsStopped s.pools), refl)
