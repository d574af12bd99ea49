-- ===== src/UpSyncer/Runs.antt =====
-- Uploads of ts-code/core/storage/synced/upsyncer.ts at concrete inputs.
use core_3nweb_client_lib.Base.{
  ℕ, ◌≡◌, refl, arith, Bool, true, false, none, some, List, [], ◌∷◌, take, drop, ok, throws,
}
use core_3nweb_client_lib.Base.NumMap.{get}
use core_3nweb_client_lib.ObjLayout.Params.{DiffInfo}
use core_3nweb_client_lib.StatusInfo.{
  LocalVersions, make_obj_status_info, no_versions, unsynced, NewVersionUpload, NeedUpload,
  ordered_whole, ordered_diff, DiffVerOrderedUpload, new_version, add_lens,
}
use core_3nweb_client_lib.ObjStatus.{ObjStatus, save, record_upload_start}
use core_3nweb_client_lib.UpSyncer.{
  Source, Reply, saved, disconnected, refused, whole_ver_upload, max_upload_chunk, header_to_upload,
  expected_header_len, assertion, start_ordered_upload, first_segs, max_first_segs, checked_segs,
  upload_round, continue_pieces,
}
use core_3nweb_client_lib.UpSyncer.Task.{
  UploadTask, new_task, new_info, task_for, start_task, after_start, make_need, process,
}
use core_3nweb_client_lib.UpSyncer.Server.{stored, IsSource}
use core_3nweb_client_lib.UpSyncer.Whole.{held_of}
use core_3nweb_client_lib.UpSyncer.Progress.{process_all}
use core_3nweb_client_lib.UpSyncer.Delivery.{IsDone}
use core_3nweb_client_lib.UpSyncer.Upload.{IsReady, process_all-stored, process_all_resolves}
use core_3nweb_client_lib.UpSyncer.Bounds.{IsWithin, upload_round-IsWithin}
use core_3nweb_client_lib.UpSyncer.Pieces.{
  continue_all, continue_all-pieces_bytes, continue_pieces-disconnected,
}
use core_3nweb_client_lib.UpSyncer.Refusal.{IsGivenUp, process_refused}
use core_3nweb_client_lib.UpSyncer.Syncer.{
  UpSyncer, start_upload_from_disk, process_in, IsMatched, here, next, starts,
  SyncerReach-IsMatched, start_after_refusal, already_uploading_as,
}

abbrev version_bytes : List ℕ
version_bytes = 1 ∷ 2 ∷ 3 ∷ 4 ∷ 5 ∷ 6 ∷ []

-- A version of six bytes with a header of one, for a server that takes three bytes at once.
abbrev source : Source
source = record {
  max_chunk_size = some 3;
  read_header = 9 ∷ [];
  segs_size = 6;
  read_at = λ (ofs : ℕ) (len : ℕ). some (take len (drop ofs version_bytes));
  diff_bytes = λ (d : DiffInfo). [];
}

source-IsSource : IsSource version_bytes source
unfolding IsSource
source-IsSource = (refl, λ ofs len within. refl)

abbrev local_two : LocalVersions
local_two = record { vers = record no_versions { current = some 2 }; is_archived = false }

abbrev status : ObjStatus
unfolding make_obj_status_info
status = record {
  status = record make_obj_status_info { local = some local_two };
  state_indicator = unsynced;
  saves = 0;
}

abbrev no_diff : DiffInfo × List (ℕ × ℕ)
no_diff = (record { diff_base_version = 1; diff_sections = []; segs_size = 6 }, [])

abbrev need : NeedUpload
unfolding whole_ver_upload expected_header_len
need = ordered_whole (whole_ver_upload source none true)

abbrev info : NewVersionUpload
unfolding need
info = new_info 2 3 none need

abbrev task : UploadTask
unfolding info status save new_task
task =
    new_task (save status (record status.status { upload = some (new_version info) })) info none
      need

status-IsReady : IsReady status 2
unfolding IsReady status
status-IsReady = (refl, refl)

task_made : (task_for source status 2 3 none none true no_diff).1 ≡ ok task
unfolding task_for start_task after_start make_need task info need status record_upload_start
task_made = refl

abbrev replies : List (Reply × Bool)
replies =
    (disconnected, true)
    ∷ (saved (some (7 ∷ [])), true)
    ∷ (saved (some (7 ∷ [])), true)
    ∷ (disconnected, true)
    ∷ (saved (some (7 ∷ [])), true)
    ∷ (saved (some (7 ∷ [])), true)
    ∷ (saved (some (7 ∷ [])), true)
    ∷ (saved (some (7 ∷ [])), true)
    ∷ []

process_all_resolves_example : IsDone (process_all source task replies)
unfolding header_to_upload max_upload_chunk
process_all_resolves_example =
    process_all_resolves source version_bytes status 2 3 none none true no_diff task replies
      source-IsSource status-IsReady refl task_made (omega arith) (omega arith)
      (refl, (refl, (refl, (refl, (refl, (refl, (refl, (refl, tt)))))))) (omega arith)

process_all-stored_example :
    stored (process_all source task replies).requests ≡ held_of 3 (9 ∷ []) version_bytes true
unfolding header_to_upload
process_all-stored_example =
    process_all-stored source version_bytes status 2 3 none none true no_diff task replies
      source-IsSource status-IsReady refl task_made process_all_resolves_example.0

upload_round-IsWithin_example :
    IsWithin 3 (upload_round source none 3 need (saved (some (7 ∷ [])))).0
unfolding max_upload_chunk whole_ver_upload need
upload_round-IsWithin_example =
    upload_round-IsWithin source none 3 need (saved (some (7 ∷ []))) (λ _. refl)

-- A version without segments can't be uploaded: the first request is never made.
empty_is_not_sent :
    let r =
      upload_round
        (record source { segs_size = 0 })
        none
        3
        (ordered_whole (record (whole_ver_upload source none true) { segs_left = 0 }))
        (saved (some (7 ∷ []))) in
    (r.0 ≡ none) × (r.2 ≡ throws assertion)
unfolding upload_round start_ordered_upload first_segs max_first_segs checked_segs max_upload_chunk
    whole_ver_upload header_to_upload
empty_is_not_sent = (refl, refl)

-- Two pieces, of which the first is longer than a request.
abbrev pieces : List (ℕ × ℕ)
pieces = (0, 5) ∷ (5, 1) ∷ []

abbrev diff_upload : DiffVerOrderedUpload
diff_upload = record {
  diff = record { diff_base_version = 1; diff_sections = []; segs_size = 6 };
  new_segs_left = pieces;
  header = none;
  transaction_id = some (7 ∷ []);
}

continue_all-pieces_bytes_example : continue_all source diff_upload 8 ≡ (version_bytes, none)
continue_all-pieces_bytes_example =
    continue_all-pieces_bytes version_bytes source source-IsSource diff_upload pieces 8 refl
      (omega arith) (omega arith, (omega arith, tt)) (omega arith)

continue_pieces-disconnected_example :
    (d : DiffVerOrderedUpload) × ((continue_pieces source diff_upload disconnected pieces).1
      ≡ some (ordered_diff d))
    × (add_lens 0 d.new_segs_left ≡ 8)
unfolding max_upload_chunk add_lens
continue_pieces-disconnected_example =
    continue_pieces-disconnected version_bytes source source-IsSource diff_upload 0 5 ((5, 1) ∷ [])
      (omega arith) (omega arith)

process_refused_example : IsGivenUp task.obj_status.status (process source task (refused true) true)
unfolding task
process_refused_example = process_refused source task true true need refl refl refl

abbrev with_task : UpSyncer
with_task = record { tasks_by_obj_ids = (4, 7) ∷ []; tasks_by_ids = (7, 4) ∷ [] }

start_after_refusal_example :
    let r = process_in with_task 4 7 source task (refused true) true in
    (r.1.obj_status.status.upload ≡ none)
    × ((start_upload_from_disk r.0 status 4 (8 ∷ []) (status, ok task)).2
        ≡ throws (already_uploading_as 7))
unfolding get task
start_after_refusal_example =
    start_after_refusal with_task 4 7 source task true true need status (8 ∷ []) (status, ok task)
      refl refl refl refl

empty-IsMatched : IsMatched (record { tasks_by_obj_ids = []; tasks_by_ids = [] })
unfolding get
empty-IsMatched o t = (λ h. cc h, λ h. cc h)

abbrev after_start_of_four : UpSyncer
unfolding start_upload_from_disk
after_start_of_four =
    (start_upload_from_disk (record { tasks_by_obj_ids = []; tasks_by_ids = [] }) status 4 (7 ∷ [])
      (status, ok task)).0

SyncerReach-IsMatched_example : IsMatched after_start_of_four
unfolding after_start_of_four
SyncerReach-IsMatched_example =
    SyncerReach-IsMatched {u = record { tasks_by_obj_ids = []; tasks_by_ids = [] }}
      (next here (starts status 4 (7 ∷ []) (status, ok task))) empty-IsMatched
