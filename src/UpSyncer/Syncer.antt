-- ===== src/UpSyncer/Syncer.antt =====
-- The class `UpSyncer` of ts-code/core/storage/synced/upsyncer.ts: its two maps of tasks. Ids of
-- objects are numbers, and the map by ids of tasks gives the object of a task. Starts of the uploads
-- of one object follow one another, as `syncedUploadStarts` makes them. `combineLocalBaseIfPresent`
-- and `saveUploadHeaderFile` come before the task is made, and are in its arguments.
use core_3nweb_client_lib.Base.{
  ℕ, ◌≡◌, refl, arith, Bool, true, false, Option, none, some, List, [], ◌∷◌, if◌then◌else◌, Outcome,
  ok, throws, ◌↔◌, if_cases,
}
use core_3nweb_client_lib.Base.NumMap.{NumMap, get, put, remove, get-put, get-remove}
use core_3nweb_client_lib.StatusInfo.{StatusError, NeedUpload}
use core_3nweb_client_lib.ObjStatus.{ObjStatus, Done, record_remote_removal_completion}
use core_3nweb_client_lib.UpSyncer.{Source, Reply, saved, disconnected, refused}
use core_3nweb_client_lib.UpSyncer.Task.{
  Completion, pending, resolved, rejected, UploadTask, process,
}
use core_3nweb_client_lib.UpSyncer.Delivery.{IsRecorded}
use core_3nweb_client_lib.UpSyncer.Refusal.{process_refused}

pub record UpSyncer : Type 0 where
  pub tasks_by_obj_ids : NumMap
  pub tasks_by_ids : NumMap

pub data StartError : Type 0 where
  already_uploading_as : (task_id : ℕ) → StartError
  no_free_id : StartError
  not_made : Option StatusError → StartError

-- An id that is drawn, by whether there is a task with it.
abbrev unless_taken : ℕ → Option ℕ → Option ℕ → Option ℕ
unless_taken id none rest = some id
unless_taken id (some o) rest = rest

-- The `do` loop that draws random ids until one is free, over the numbers drawn.
pub free_id : NumMap → List ℕ → Option ℕ
unfolding get
free_id tasks [] = none
free_id tasks (id ∷ ids) = unless_taken id (get tasks id) (free_id tasks ids)

-- What a start gives: the syncer, the object's status, and the task with its id.
abbrev pub Started : Type 0
Started = UpSyncer × ObjStatus × Outcome StartError (ℕ × UploadTask)

pub add_task : UpSyncer → ℕ → ℕ → ObjStatus × Outcome (Option StatusError) UploadTask → Started
unfolding put
add_task u obj_id task_id (s, throws e) = (u, s, throws (not_made e))
add_task u obj_id task_id (s, ok t) = (
  record {
    tasks_by_obj_ids = put u.tasks_by_obj_ids obj_id task_id;
    tasks_by_ids = put u.tasks_by_ids task_id obj_id;
  },
  s,
  ok (task_id, t),
)

-- `startUploadFromDisk`, with the numbers that `Math.random` gives and what `UploadTask.for` makes.
unfoldable pub start_upload_from_disk :
    UpSyncer
    → ObjStatus
    → ℕ
    → List ℕ
    → ObjStatus × Outcome (Option StatusError) UploadTask
    → Started
unfolding free_id add_task
start_upload_from_disk u s obj_id random made = elim (get u.tasks_by_obj_ids obj_id) [
  | some task_id ↦ (u, s, throws (already_uploading_as task_id))
  | none ↦ elim (free_id u.tasks_by_ids random) [
    | none ↦ (u, s, throws no_free_id)
    | some task_id ↦ add_task u obj_id task_id made
  ]
]

-- The start of `doAtCompletion`.
pub forget : UpSyncer → ℕ → ℕ → UpSyncer
unfolding get remove
forget u obj_id task_id = elim (get u.tasks_by_ids task_id) [
  | none ↦ u
  | some o ↦ record {
    tasks_by_obj_ids = remove u.tasks_by_obj_ids obj_id;
    tasks_by_ids = remove u.tasks_by_ids task_id;
  }
]

abbrev is_resolved : Completion → Bool
is_resolved resolved = true
is_resolved pending = false
is_resolved rejected = false

-- A call of `process` in the syncer. `doAtCompletion` has run when it resolves the promise.
pub process_in : UpSyncer → ℕ → ℕ → Source → UploadTask → Reply → Bool → UpSyncer × UploadTask
unfolding forget process
process_in u obj_id task_id src t reply files_moved =
    let t' = (process src t reply files_moved).0 in
    (if is_resolved t'.completion then forget u obj_id task_id else u, t')

-- `removeCurrentVersionOf`, with the server's replies: after a lost connection it tries again.
unfoldable pub remove_current_version_of : ObjStatus → List Reply → Done (Unit {0})
unfolding record_remote_removal_completion
remove_current_version_of s [] = (s, ok tt)
remove_current_version_of s (saved trans ∷ rest) = record_remote_removal_completion s
remove_current_version_of s (disconnected ∷ rest) = remove_current_version_of s rest
remove_current_version_of s (refused b ∷ rest) = (s, ok tt)

-- What changes the maps: starts, and calls of `process` of tasks that are in them.
pub data SyncerStep (u : UpSyncer) : UpSyncer → Type 0 where
  starts :
      (s : ObjStatus) (obj_id : ℕ) (random : List ℕ)
      (made : ObjStatus × Outcome (Option StatusError) UploadTask)
      → SyncerStep u (start_upload_from_disk u s obj_id random made).0
  processes :
      (obj_id task_id : ℕ) (src : Source) (t : UploadTask) (reply : Reply) (files_moved : Bool)
      → get u.tasks_by_ids task_id ≡ some obj_id
      → SyncerStep u (process_in u obj_id task_id src t reply files_moved).0

pub data SyncerReach (u : UpSyncer) : UpSyncer → Type 0 where
  here : SyncerReach u u
  next : {v w : UpSyncer} → SyncerReach u v → SyncerStep v w → SyncerReach u w

-- An object has a task exactly when the task is of that object.
abbrev pub IsMatched : UpSyncer → Type 0
IsMatched u =
    (obj_id task_id : ℕ)
    → (get u.tasks_by_obj_ids obj_id ≡ some task_id) ↔ (get u.tasks_by_ids task_id ≡ some obj_id)

free_id-is_free :
    (tasks : NumMap) (ids : List ℕ) (id : ℕ) → free_id tasks ids ≡ some id → get tasks id ≡ none
unfolding free_id
free_id-is_free tasks [] id e = cc
free_id-is_free tasks (i ∷ ids) id e = by_task (get tasks i) refl (free_id-is_free tasks ids id)
  where
    by_task :
        (o : Option ℕ)
        → get tasks i ≡ o
        → (free_id tasks ids ≡ some id → get tasks id ≡ none)
        → get tasks id ≡ none
    by_task none free later = cc (rw free at e, free)
    by_task (some o) taken later = later (rw taken at e)

put-IsMatched :
    (u : UpSyncer) (obj_id task_id : ℕ)
    → IsMatched u
    → get u.tasks_by_obj_ids obj_id ≡ none
    → get u.tasks_by_ids task_id ≡ none
    → IsMatched (record {
      tasks_by_obj_ids = put u.tasks_by_obj_ids obj_id task_id;
      tasks_by_ids = put u.tasks_by_ids task_id obj_id;
    })
put-IsMatched u obj_id task_id h no_obj no_task o t =
    rw (get-put u.tasks_by_obj_ids obj_id task_id o) (
      rw (get-put u.tasks_by_ids task_id obj_id t) (ground (arith, h o t, h obj_id t, h o task_id)))

forget-IsMatched :
    (u : UpSyncer) (obj_id task_id : ℕ)
    → IsMatched u
    → get u.tasks_by_obj_ids obj_id ≡ some task_id
    → IsMatched (forget u obj_id task_id)
unfolding forget
forget-IsMatched u obj_id task_id h same =
    rw (forget, (h obj_id task_id).0 same)
      (λ o t. rw (get-remove u.tasks_by_obj_ids obj_id o) (
        rw (get-remove u.tasks_by_ids task_id t)
          (ground (arith, h o t, h obj_id t, h o task_id, h obj_id task_id))))

start-IsMatched :
    (u : UpSyncer) (s : ObjStatus) (obj_id : ℕ) (random : List ℕ)
    (made : ObjStatus × Outcome (Option StatusError) UploadTask)
    → IsMatched u
    → IsMatched (start_upload_from_disk u s obj_id random made).0
unfolding start_upload_from_disk add_task
start-IsMatched u s obj_id random made h = by_task (get u.tasks_by_obj_ids obj_id) refl
  where
    added :
        (task_id : ℕ) (m : ObjStatus × Outcome (Option StatusError) UploadTask)
        → get u.tasks_by_obj_ids obj_id ≡ none
        → get u.tasks_by_ids task_id ≡ none
        → IsMatched (add_task u obj_id task_id m).0
    added task_id (s', throws e) no_obj no_task = h
    added task_id (s', ok t) no_obj no_task = put-IsMatched u obj_id task_id h no_obj no_task

    by_id :
        (id : Option ℕ)
        → get u.tasks_by_obj_ids obj_id ≡ none
        → free_id u.tasks_by_ids random ≡ id
        → IsMatched (start_upload_from_disk u s obj_id random made).0
    by_id none no_obj e = rw (start_upload_from_disk, no_obj, e) h
    by_id (some id) no_obj e =
        rw (start_upload_from_disk, no_obj, e)
          (added id made no_obj (free_id-is_free u.tasks_by_ids random id e))

    by_task :
        (o : Option ℕ)
        → get u.tasks_by_obj_ids obj_id ≡ o
        → IsMatched (start_upload_from_disk u s obj_id random made).0
    by_task none e = by_id (free_id u.tasks_by_ids random) e refl
    by_task (some t) e = rw (start_upload_from_disk, e) h

SyncerStep-IsMatched : {u v : UpSyncer} → SyncerStep u v → IsMatched u → IsMatched v
unfolding process_in
SyncerStep-IsMatched {u} (starts s obj_id random made) h = start-IsMatched u s obj_id random made h
SyncerStep-IsMatched {u} (processes obj_id task_id src t reply m e) h =
    if_cases IsMatched (is_resolved (process src t reply m).0.completion)
      (λ _. forget-IsMatched u obj_id task_id h ((h obj_id task_id).1 e)) (λ _. h)

-- In every state that starts and calls of `process` lead to from one in which this holds, such as
-- the empty maps, the two maps are inverse to each other: an object is never in two tasks.
pub SyncerReach-IsMatched : {u v : UpSyncer} → SyncerReach u v → IsMatched u → IsMatched v
SyncerReach-IsMatched here h = h
SyncerReach-IsMatched (next r step) h = SyncerStep-IsMatched step (SyncerReach-IsMatched r h)

-- A task of an object, under way, with a request that the server refuses: it leaves the object's
-- status without an upload, and yet every later start of an upload of that object throws that the
-- failed task is uploading it, as the task stays in the maps.
pub start_after_refusal :
    (u : UpSyncer) (obj_id task_id : ℕ) (src : Source) (t : UploadTask) (b files_moved : Bool)
    (need : NeedUpload) (s : ObjStatus) (random : List ℕ)
    (made : ObjStatus × Outcome (Option StatusError) UploadTask)
    → get u.tasks_by_obj_ids obj_id ≡ some task_id
    → t.info.need_upload ≡ some need
    → IsRecorded t
    → t.completion ≡ pending
    → let r = process_in u obj_id task_id src t (refused b) files_moved in
      (r.1.obj_status.status.upload ≡ none)
      × ((start_upload_from_disk r.0 s obj_id random made).2
          ≡ throws (already_uploading_as task_id))
unfolding process_in start_upload_from_disk
start_after_refusal u obj_id task_id src t b m need s random made same e recorded open_promise =
    let (returned, none_needed, failed, status) =
      process_refused src t b m need e recorded open_promise in
    (rw status refl, rw failed (rw (start_upload_from_disk, same) refl))
