-- ===== src/UpSyncer/Task.antt =====
-- `UploadTask` of ts-code/core/storage/synced/upsyncer.ts, with the status of the object that it
-- records its progress in. `info` is one object with the upload in that status, so what a request
-- changes in it is changed there too, before anything is saved.
use core_3nweb_client_lib.Base.{
  ℕ, Bool, true, false, Option, none, some, List, [], ◌∷◌, ◌==◌, ◌&&◌, truthy, if◌then◌else◌,
  Outcome, ok, throws,
}
use core_3nweb_client_lib.ObjLayout.Params.{DiffInfo}
use core_3nweb_client_lib.StatusInfo.{
  NewVersionUpload, NeedUpload, ordered_whole, ordered_diff, new_version, removal, StatusError,
  already_uploading,
}
use core_3nweb_client_lib.ObjStatus.{
  ObjStatus, record_upload_start, record_upload_interim_state, record_upload_cancellation,
  record_upload_completion,
}
use core_3nweb_client_lib.UpSyncer.{
  UploadExecLabel, Source, Request, Reply, UploadError, connect, no_transaction, assertion, files,
  http, of_status, is_id, whole_ver_upload, diff_ver_upload, executor_label_for, upload_round,
}

-- The promise of `completion()`. Once it is settled it stays so.
pub data Completion : Type 0 where
  pending resolved rejected : Completion

-- `requests` are those that were made, with the server's replies, the last one first, and
-- `cancelled` the transactions that the task has asked to cancel.
pub record UploadTask : Type 0 where
  pub obj_status : ObjStatus
  pub info : NewVersionUpload
  pub upload_header : Option (List ℕ)
  pub exec_label : UploadExecLabel
  pub completion : Completion
  pub requests : List (Request × Reply)
  pub cancelled : List (List ℕ)

abbrev pub settle : Completion → Completion → Completion
settle pending next = next
settle resolved next = resolved
settle rejected next = rejected

-- `neededExecutor`
unfoldable pub needed_executor : UploadTask → Option UploadExecLabel
needed_executor t = elim t.info.need_upload [ none ↦ none | some need ↦ some t.exec_label ]

abbrev pub transaction_needed : Option NeedUpload → Option (List ℕ)
transaction_needed none = none
transaction_needed (some (ordered_whole w)) = w.transaction_id
transaction_needed (some (ordered_diff d)) = d.transaction_id

-- A change of `info` is seen in the status that holds the same object.
unfoldable pub share : ObjStatus → NewVersionUpload → ObjStatus
share s info = elim s.status.upload [
  | none ↦ s
  | some up ↦ elim up [
    | removal r ↦ s
    | new_version n ↦
        if n.upload_version == info.upload_version
        then record s { status = record s.status { upload = some (new_version info) } }
        else s
  ]
]

unfoldable pub with_need : UploadTask → Option NeedUpload → UploadTask
unfolding share
with_need t need =
    let info = record t.info { need_upload = need } in
    record t { info = info; obj_status = share t.obj_status info }

abbrev pub with_request : Option Request → Reply → List (Request × Reply) → List (Request × Reply)
with_request none reply requests = requests
with_request (some request) reply requests = (request, reply) ∷ requests

abbrev pub noted : UploadTask → Option Request → Reply → UploadTask
noted t request reply = record t { requests = with_request request reply t.requests }

abbrev pub unexpected : UploadError → Bool
unexpected (http b) = b
unexpected _ = false

-- `cancelTransaction`, whose own failure is ignored.
pub cancel_transaction : Option (List ℕ) → UploadError → List (List ℕ) → List (List ℕ)
cancel_transaction none e cancelled = cancelled
cancel_transaction (some trans) e cancelled =
    if unexpected e && is_id (some trans) then trans ∷ cancelled else cancelled

-- What `process` returns, or throws out of its own `catch`.
abbrev pub Processed : Type 0
Processed = UploadTask × Outcome StatusError Bool

abbrev pub and_done : Bool → Outcome StatusError (Unit {0}) → Outcome StatusError Bool
and_done done (throws e) = throws e
and_done done (ok _) = ok done

unfoldable pub fail : UploadTask → UploadError → Processed
unfolding cancel_transaction with_need
fail t e =
    let t' = with_need t none in
    let r = record_upload_cancellation t'.obj_status t'.info in
    (
      record t' {
        obj_status = r.0;
        completion = settle t.completion rejected;
        cancelled = cancel_transaction (transaction_needed t.info.need_upload) e t.cancelled;
      },
      and_done true r.1,
    )

-- The `catch` of `process`. After `connect` it waits for the connection.
unfoldable pub on_error : UploadTask → UploadError → Processed
unfolding fail
on_error t connect = (t, ok false)
on_error t no_transaction = fail t no_transaction
on_error t assertion = fail t assertion
on_error t files = fail t files
on_error t (http b) = fail t (http b)
on_error t (of_status e) = fail t (of_status e)

-- `doAtCompletion` moves the version's file, which may fail, and records the completion. The
-- promise is resolved however this ends.
unfoldable pub after_completion :
    UploadTask → ObjStatus × Outcome StatusError (Unit {0}) → Processed
unfolding on_error
after_completion t (s, throws e) = on_error (record t { obj_status = s }) (of_status e)
after_completion t (s, ok _) = (record t { obj_status = s }, ok true)

unfoldable pub complete : UploadTask → Bool → Processed
unfolding on_error after_completion
complete t files_moved =
    let t' = record t { completion = settle t.completion resolved } in
    if files_moved
    then after_completion t'
        (record_upload_completion t.obj_status t.info.local_version t.info.upload_version)
    else on_error t' files

unfoldable pub after_saved : UploadTask → Bool → Option NeedUpload → Processed
unfolding complete
after_saved t files_moved none = complete t files_moved
after_saved t files_moved (some need) = (t, ok false)

unfoldable pub after_record :
    UploadTask → Bool → ObjStatus × Outcome StatusError (Unit {0}) → Processed
unfolding on_error after_saved
after_record t files_moved (s, throws e) = on_error (record t { obj_status = s }) (of_status e)
after_record t files_moved (s, ok _) =
    after_saved (record t { obj_status = s }) files_moved t.info.need_upload

unfoldable pub after_round : UploadTask → Bool → Outcome UploadError (Unit {0}) → Processed
unfolding on_error after_record
after_round t files_moved (throws e) = on_error t e
after_round t files_moved (ok _) =
    after_record t files_moved (record_upload_interim_state t.obj_status t.info)

-- `process`, with the server's reply to its request and whether files can be moved, by what is
-- needed.
unfoldable pub process_needed : Source → UploadTask → Reply → Bool → Option NeedUpload → Processed
unfolding upload_round with_need after_round
process_needed src t reply files_moved none = (t, ok true)
process_needed src t reply files_moved (some need) =
    let r = upload_round src t.upload_header t.info.upload_version need reply in
    after_round (noted (with_need t r.1) r.0 reply) files_moved r.2

unfoldable pub process : Source → UploadTask → Reply → Bool → Processed
unfolding process_needed
process src t reply files_moved = process_needed src t reply files_moved t.info.need_upload

-- The constructor, whose `info.needUpload!` is there in every upload that is not cancelled.
unfoldable pub new_task : ObjStatus → NewVersionUpload → Option (List ℕ) → NeedUpload → UploadTask
unfolding executor_label_for
new_task s info upload_header need = record {
  obj_status = s;
  info = info;
  upload_header = upload_header;
  exec_label = executor_label_for need;
  completion = pending;
  requests = [];
  cancelled = [];
}

-- The upload of a version, as a diff when there is a synced base.
unfoldable pub make_need :
    Source → Option (List ℕ) → Option ℕ → Bool → DiffInfo × List (ℕ × ℕ) → NeedUpload
unfolding whole_ver_upload diff_ver_upload
make_need src upload_header synced_base create_obj (diff, pack_order) =
    if truthy synced_base
    then ordered_diff (diff_ver_upload src upload_header diff pack_order)
    else ordered_whole (whole_ver_upload src upload_header create_obj)

abbrev pub new_info : ℕ → ℕ → Option ℕ → NeedUpload → NewVersionUpload
new_info local_version upload_version synced_base need = record {
  local_version = local_version;
  upload_version = upload_version;
  base_version = synced_base;
  need_upload = some need;
}

unfoldable pub after_start :
    NewVersionUpload
    → Option (List ℕ)
    → NeedUpload
    → ObjStatus × Outcome StatusError (Unit {0})
    → ObjStatus × Outcome (Option StatusError) UploadTask
unfolding new_task
after_start info upload_header need (s, throws e) = (s, throws (some e))
after_start info upload_header need (s, ok _) = (s, ok (new_task s info upload_header need))

unfoldable pub start_task :
    ObjStatus
    → NewVersionUpload
    → Option (List ℕ)
    → NeedUpload
    → ObjStatus × Outcome (Option StatusError) UploadTask
unfolding after_start
start_task s info upload_header need =
    after_start info upload_header need (record_upload_start s info)

-- `for`, with what `diffForUploadOf` gives. An upload without `needUpload` makes the constructor
-- throw a TypeError, which is told apart from the others as `none`.
unfoldable pub task_for :
    Source
    → ObjStatus
    → ℕ
    → ℕ
    → Option (List ℕ)
    → Option ℕ
    → Bool
    → DiffInfo × List (ℕ × ℕ)
    → ObjStatus × Outcome (Option StatusError) UploadTask
unfolding make_need new_task start_task
task_for src s local_version upload_version upload_header synced_base create_obj diff =
    elim s.status.upload [
      | some up ↦ elim up [
        | removal r ↦ (s, throws (some already_uploading))
        | new_version n ↦
            if (n.local_version == local_version) && (n.upload_version == upload_version)
            then elim n.need_upload [
              | none ↦ (s, throws none)
              | some need ↦ (s, ok (new_task s n upload_header need))
            ]
            else (s, throws (some already_uploading))
      ]
      | none ↦
          let need = make_need src upload_header synced_base create_obj diff in
          start_task s (new_info local_version upload_version synced_base need) upload_header need
    ]
