-- ===== src/UpSyncer/Upload.antt =====
-- Uploads of a whole version that `UploadTask.for` makes, of
-- ts-code/core/storage/synced/upsyncer.ts, and what the server has at their end.
use core_3nweb_client_lib.Base.{
  ℕ, ◌+◌, ◌≤◌, ◌<◌, ◌≡◌, refl, sym, ap, ◌∙◌, subst, ok_injective, arith, Bool, true, false, Option,
  none, some, List, ==_refl, length, ok, All, truthy,
}
use core_3nweb_client_lib.ObjLayout.Params.{DiffInfo}
use core_3nweb_client_lib.StatusInfo.{NewVersionUpload, NeedUpload, ordered_whole, new_version}
use core_3nweb_client_lib.ObjStatus.{ObjStatus, save, record_upload_start, local_current}
use core_3nweb_client_lib.UpSyncer.{
  Source, Reply, header_to_upload, max_upload_chunk, whole_ver_upload, expected_header_len,
}
use core_3nweb_client_lib.UpSyncer.Task.{
  resolved, UploadTask, new_task, new_info, start_task, after_start, make_need, task_for,
}
use core_3nweb_client_lib.UpSyncer.Server.{stored, IsSource}
use core_3nweb_client_lib.UpSyncer.Whole.{held_of}
use core_3nweb_client_lib.UpSyncer.Progress.{
  IsUploading, process_all, process_all-IsUploading, resolved-stored,
}
use core_3nweb_client_lib.UpSyncer.Delivery.{
  IsDone, IsLeft, is_good, saves_in, process_all-IsDone_of_saves,
}

-- The object has no upload yet, and its current local version is the one to upload.
unfoldable pub IsReady : ObjStatus → ℕ → Type 0
IsReady s local_version =
    (s.status.upload ≡ none) × (local_current s.status.local ≡ some local_version)

-- The task for a version without a base.
abbrev info_of_whole : Source → ℕ → ℕ → Option (List ℕ) → Option ℕ → Bool → NewVersionUpload
info_of_whole src local_version ver given base create_obj =
    new_info local_version ver base (ordered_whole (whole_ver_upload src given create_obj))

pub whole_task : Source → ObjStatus → ℕ → ℕ → Option (List ℕ) → Option ℕ → Bool → UploadTask
unfolding new_task save
whole_task src s local_version ver given base create_obj =
    let info = info_of_whole src local_version ver given base create_obj in
    new_task (save s (record s.status { upload = some (new_version info) })) info given
      (ordered_whole (whole_ver_upload src given create_obj))

make_need-eq :
    (src : Source) (given : Option (List ℕ)) (base : Option ℕ) (create_obj : Bool)
    (diff : DiffInfo × List (ℕ × ℕ))
    → truthy base ≡ false
    → make_need src given base create_obj diff
      ≡ ordered_whole (whole_ver_upload src given create_obj)
unfolding make_need
make_need-eq src given base create_obj diff whole = rw whole refl

record_start-eq :
    (s : ObjStatus) (info : NewVersionUpload)
    → IsReady s info.local_version
    → record_upload_start s info
      ≡ (save s (record s.status { upload = some (new_version info) }), ok tt)
unfolding record_upload_start IsReady
record_start-eq s info ready =
    rw (record_upload_start, ready.0) (rw ready.1 (rw (==_refl info.local_version) refl))

start_task-eq :
    (s : ObjStatus) (info : NewVersionUpload) (given : Option (List ℕ)) (need : NeedUpload)
    → IsReady s info.local_version
    → (start_task s info given need).1
      ≡ ok
          (new_task (save s (record s.status { upload = some (new_version info) })) info given need)
unfolding start_task after_start
start_task-eq s info given need ready = rw (start_task, record_start-eq s info ready) refl

task_for-eq :
    (src : Source) (s : ObjStatus) (local_version ver : ℕ) (given : Option (List ℕ))
    (base : Option ℕ) (create_obj : Bool) (diff : DiffInfo × List (ℕ × ℕ))
    → IsReady s local_version
    → truthy base ≡ false
    → (task_for src s local_version ver given base create_obj diff).1
      ≡ ok (whole_task src s local_version ver given base create_obj)
unfolding task_for IsReady whole_task start_task
task_for-eq src s local_version ver given base create_obj diff ready whole =
    let info = info_of_whole src local_version ver given base create_obj in
    let need = ordered_whole (whole_ver_upload src given create_obj) in
    rw (task_for, ready.0)
      (ap (λ (n : NeedUpload). (start_task s (new_info local_version ver base n) given n).1)
          (make_need-eq src given base create_obj diff whole)
        ∙ start_task-eq s info given need ready)

whole_task-IsUploading :
    (src : Source) (s : ObjStatus) (local_version ver : ℕ) (given : Option (List ℕ))
    (base : Option ℕ) (create_obj : Bool) (bytes : List ℕ)
    → IsSource bytes src
    → IsUploading ver given
        (header_to_upload src given)
        bytes
        (whole_task src s local_version ver given base create_obj)
unfolding IsUploading IsSource whole_task new_task whole_ver_upload stored expected_header_len
whole_task-IsUploading src s local_version ver given base create_obj bytes reads =
    ((refl, refl), (refl, (omega (arith, reads.0), (refl, refl, refl))))

whole_task-IsLeft :
    (src : Source) (s : ObjStatus) (local_version ver : ℕ) (given : Option (List ℕ))
    (base : Option ℕ) (create_obj : Bool) (bytes : List ℕ)
    → IsSource bytes src
    → IsLeft (length bytes) (whole_task src s local_version ver given base create_obj)
unfolding IsSource whole_task new_task whole_ver_upload save
whole_task-IsLeft src s local_version ver given base create_obj bytes reads =
    (whole_ver_upload src given create_obj, refl, omega (arith, reads.0), refl, refl)

-- A task that `for` made is that one, and whatever holds of it holds of the task.
made-task :
    (P : UploadTask → Type 0) (src : Source) (s : ObjStatus) (local_version ver : ℕ)
    (given : Option (List ℕ)) (base : Option ℕ) (create_obj : Bool) (diff : DiffInfo × List (ℕ × ℕ))
    (t : UploadTask)
    → IsReady s local_version
    → truthy base ≡ false
    → (task_for src s local_version ver given base create_obj diff).1 ≡ ok t
    → P (whole_task src s local_version ver given base create_obj)
    → P t
made-task P src s local_version ver given base create_obj diff t ready whole made h =
    subst P
      (ok_injective
        (sym (task_for-eq src s local_version ver given base create_obj diff ready whole) ∙ made))
      h

-- A whole version for which there is no upload yet, read as `bytes` from disk, sent through any
-- replies of the server and any failures on the disk: if the promise of the task that `for` makes
-- is resolved, then the server accepted every request that it saved and has exactly the header and
-- the bytes of the version, with the last request flagged as last. A request that gets no answer, for
-- which the source meets a connect exception, is taken not to have reached the server.
pub process_all-stored :
    (src : Source) (bytes : List ℕ) (s : ObjStatus) (local_version ver : ℕ)
    (given : Option (List ℕ)) (base : Option ℕ) (create_obj : Bool) (diff : DiffInfo × List (ℕ × ℕ))
    (t : UploadTask) (replies : List (Reply × Bool))
    → IsSource bytes src
    → IsReady s local_version
    → truthy base ≡ false
    → (task_for src s local_version ver given base create_obj diff).1 ≡ ok t
    → (process_all src t replies).completion ≡ resolved
    → stored (process_all src t replies).requests
      ≡ held_of ver (header_to_upload src given) bytes true
process_all-stored src bytes s local_version ver given base create_obj diff t replies reads ready
      whole made settled =
    resolved-stored ver given (header_to_upload src given) bytes (process_all src t replies)
      (process_all-IsUploading ver given (header_to_upload src given) bytes src t replies reads refl
        (made-task (IsUploading ver given (header_to_upload src given) bytes) src s local_version
          ver given base create_obj diff t ready whole made
          (whole_task-IsUploading src s local_version ver given base create_obj bytes reads)))
      settled

-- A whole version with at least one byte, read as `bytes` from disk, with a header that leaves room
-- for two bytes in a chunk: when every reply either loses a request or saves it with an id of a
-- transaction, and as many are saved as there are bytes, the promise of the task that `for` makes
-- is resolved and nothing is left to send, wherever among them requests are lost.
pub process_all_resolves :
    (src : Source) (bytes : List ℕ) (s : ObjStatus) (local_version ver : ℕ)
    (given : Option (List ℕ)) (base : Option ℕ) (create_obj : Bool) (diff : DiffInfo × List (ℕ × ℕ))
    (t : UploadTask) (replies : List (Reply × Bool))
    → IsSource bytes src
    → IsReady s local_version
    → truthy base ≡ false
    → (task_for src s local_version ver given base create_obj diff).1 ≡ ok t
    → length (header_to_upload src given) + 1 < max_upload_chunk src
    → 0 < length bytes
    → All (λ (r : Reply × Bool). is_good r.0 ≡ true) replies
    → length bytes ≤ saves_in replies
    → IsDone (process_all src t replies)
process_all_resolves src bytes s local_version ver given base create_obj diff t replies reads ready
      whole made fits some_bytes good enough =
    process_all-IsDone_of_saves ver given (header_to_upload src given) bytes src reads refl fits
      some_bytes t replies (length bytes) good enough
      (made-task (IsUploading ver given (header_to_upload src given) bytes) src s local_version ver
        given base create_obj diff t ready whole made
        (whole_task-IsUploading src s local_version ver given base create_obj bytes reads))
      (made-task (IsLeft (length bytes)) src s local_version ver given base create_obj diff t ready
        whole made (whole_task-IsLeft src s local_version ver given base create_obj bytes reads))
