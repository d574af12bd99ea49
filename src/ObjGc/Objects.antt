-- ===== src/ObjGc/Objects.antt =====
-- Garbage collection in an object, and the order in which objects are taken, of
-- ts-code/core/storage/synced/obj-files-gc.ts. What the disk answers is a parameter. `SingleProc` runs
-- one action here, so of it there is left whether the action runs.
use core_3nweb_client_lib.Base.{
  ℕ, zero, suc, Bool, true, false, not, ◌&&◌, Option, none, some, List, [], ◌∷◌, ◌++◌, includes,
  if◌then◌else◌, Outcome, ok, throws, ◌>>=◌,
}
use core_3nweb_client_lib.StatusInfo.{StatusError}
use core_3nweb_client_lib.StatusInfo.Kept.{NonGarbageVersions, NonGarbage, identify_non_garbage}
use core_3nweb_client_lib.ObjStatus.{ObjStatus, is_in_sync, local_is_archived}
use core_3nweb_client_lib.ObjStatus.Local.{sync_status, never_uploaded}
use core_3nweb_client_lib.ObjGc.{Text, remove_garbage_files}

-- The root object's id, `null`, is the empty text. A folder that is not there is `none`.
pub record SyncedObj : Type 0 where
  pub obj_id : Text
  pub is_cached : Bool
  pub status : ObjStatus
  pub folder : Option (List Text)

-- Whether a file gets unlinked, and whether the object's folder gets removed.
pub record Disk : Type 0 where
  pub unlinks : Text → Bool
  pub removes_folder : Bool

pub needs_upsync_of_removal : ObjStatus → Outcome StatusError Bool
unfolding never_uploaded sync_status is_in_sync
needs_upsync_of_removal s =
    if never_uploaded s.status
    then ok false
    else (sync_status s >>= λ (_, answer). ok (not (is_in_sync answer.state)))

abbrev pub is_empty : List ℕ → Bool
is_empty [] = true
is_empty (x ∷ xs) = false

abbrev pub no_local_kept : Option NonGarbageVersions → Bool
no_local_kept none = true
no_local_kept (some kept) = is_empty kept.non_garbage

unfoldable pub keeps_nothing : NonGarbage → Bool
keeps_nothing kept = no_local_kept kept.local_kept && is_empty kept.remote_kept.non_garbage

abbrev pub has_id : Text → Bool
has_id [] = false
has_id (c ∷ cs) = true

-- The condition of `checkAndRemoveWholeObjFolder`.
unfoldable pub is_removable_whole : SyncedObj → NonGarbage → Outcome StatusError Bool
unfolding needs_upsync_of_removal keeps_nothing
is_removable_whole obj kept =
    if has_id obj.obj_id && local_is_archived obj.status.status.local
    then (needs_upsync_of_removal obj.status >>= λ needs. ok (not needs && keeps_nothing kept))
    else ok false

abbrev pub clean_folder : Disk → NonGarbage → Option (List Text) → Option (List Text)
clean_folder disk kept none = none
clean_folder disk kept (some fs) = some (remove_garbage_files disk.unlinks kept fs)

unfoldable pub collect_known : Disk → SyncedObj → NonGarbage → Outcome StatusError Bool → SyncedObj
unfolding remove_garbage_files
collect_known disk obj kept (throws e) = obj
collect_known disk obj kept (ok true) = record obj {
  is_cached = false;
  folder = if disk.removes_folder then none else obj.folder;
}
collect_known disk obj kept (ok false) = record obj { folder = clean_folder disk kept obj.folder }

unfoldable pub collect_kept : Disk → SyncedObj → Outcome StatusError NonGarbage → SyncedObj
unfolding collect_known is_removable_whole
collect_kept disk obj (throws e) = obj
collect_kept disk obj (ok kept) = collect_known disk obj kept (is_removable_whole obj kept)

-- `collectIn`, whose errors `objCollecting` ignores.
unfoldable pub collect_in : Disk → SyncedObj → SyncedObj
unfolding collect_kept
collect_in disk obj = collect_kept disk obj (identify_non_garbage obj.status.status)

-- `gcProc`: nothing runs, an object is being collected, or `objCollecting` has found nothing to do,
-- and the action is not yet off the list of actions.
pub data Phase : Type 0 where
  idle returning : Phase
  collecting : ℕ → Phase

-- The sets of objects keep the order of insertion.
pub record Gc : Type 0 where
  pub is_stopped : Bool
  pub phase : Phase
  pub wip : List ℕ
  pub scheduled : List ℕ

abbrev pub add_to_set : List ℕ → ℕ → List ℕ
add_to_set set obj = if includes set obj then set else set ++ obj ∷ []

abbrev take_one : Gc → List ℕ → List ℕ → Gc
take_one gc [] scheduled = record gc { phase = returning; wip = []; scheduled = scheduled }
take_one gc (obj ∷ wip) scheduled = record gc {
  phase = collecting obj;
  wip = wip;
  scheduled = scheduled;
}

abbrev pub swapped : Gc → List ℕ → List ℕ → Gc
swapped gc [] scheduled = take_one gc scheduled []
swapped gc (obj ∷ wip) scheduled = take_one gc (obj ∷ wip) scheduled

-- `objCollecting`, up to the collection of the object that it takes.
unfoldable pub obj_collecting : Gc → Gc
obj_collecting gc = swapped gc gc.wip gc.scheduled

abbrev pub start_if_idle : Gc → Phase → Gc
start_if_idle gc idle = obj_collecting gc
start_if_idle gc returning = gc
start_if_idle gc (collecting obj) = gc

unfoldable pub schedule_collection : Gc → ℕ → Gc
unfolding obj_collecting
schedule_collection gc obj =
    let gc' = record gc { scheduled = add_to_set gc.scheduled obj } in
    if gc.is_stopped then gc else start_if_idle gc' gc.phase

unfoldable pub stop_gc : Gc → Gc
stop_gc gc = record gc { is_stopped = true }

-- The rest of the action of `gcProc`, with the objects it collects in their order, when nothing is
-- scheduled meanwhile.
unfoldable pub collect_all : ℕ → Gc → List ℕ × Gc
unfolding obj_collecting
collect_all zero gc = ([], gc)
collect_all (suc fuel) gc =
    let (objs, gc') = collect_all fuel (obj_collecting gc) in
    elim gc.phase [
      | idle ↦ ([], gc)
      | returning ↦ ([], record gc { phase = idle })
      | collecting obj ↦ (obj ∷ objs, gc')
    ]
