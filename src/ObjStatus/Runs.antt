-- ===== src/ObjStatus/Runs.antt =====
-- Runs of ts-code/core/storage/synced/obj-status.ts, and its theorems at concrete inputs.
use core_3nweb_client_lib.Base.{◌≡◌, refl, arith, [], ◌∷◌, false, none, some, ok}
use core_3nweb_client_lib.Base.NumMap.{get, put, size}
use core_3nweb_client_lib.Versions.{
  is_empty_versions, add_base_to_diff_link_in_vers_info, set_current_version_in, add_archived,
  rm_arch_version_from, rm_non_arch_versions_in,
}
use core_3nweb_client_lib.StatusInfo.{
  sync_state_of, unsynced, in_sync, behind, conflicting, LocalVersions, VersionsOnServer,
  NewVersionUpload, new_version, no_versions, split_archived, find_index_above,
  remove_arch_versions_not_in_list, add_arch_versions_from_list, upload_in_status, count_bytes_in,
}
use core_3nweb_client_lib.StatusInfo.Bytes.{bytes_left, count_bytes_in-upload_in_status}
use core_3nweb_client_lib.ObjStatus.{
  ObjStatus, save, record_upload_start, record_upload_cancellation, record_upload_completion,
  remove_current_version, record_remote_removal_completion,
}
use core_3nweb_client_lib.ObjStatus.Local.{record_status_from_server, absorb_local_version_base}
use core_3nweb_client_lib.ObjStatus.Indicator.{IsInStep}
use core_3nweb_client_lib.ObjStatus.Recorded.{status_told, Recorded-IsInStep}
use core_3nweb_client_lib.ObjStatus.Uploading.{
  record_all, uploading, record_upload_cancellation-record_all,
}
use core_3nweb_client_lib.ObjStatus.Lifecycle.{
  IsSettled, IsRemoved, record_upload_completion-record_upload_start,
  record_remote_removal_completion-remove_current_version,
}

-- Version 2 is local, and version 1 is on the server.
abbrev on_server : VersionsOnServer
on_server = record { vers = record no_versions { current = some 1 }; is_archived = false }

abbrev local_two : LocalVersions
local_two = record { vers = record no_versions { current = some 2 }; is_archived = false }

abbrev changed : ObjStatus
changed = record {
  status = record {
    local = some local_two;
    synced = some (record { version = some 1; is_archived = false; base = none });
    remote = on_server;
    upload = none;
  };
  state_indicator = unsynced;
  saves = 0;
}

abbrev upload_of_two : NewVersionUpload
upload_of_two = record {
  local_version = 2;
  upload_version = 2;
  base_version = none;
  need_upload = none;
}

-- All archived versions are above the split, and all are said to be below it.
all_above_given_as_below : split_archived (5 ∷ 6 ∷ []) 3 false ≡ some (5 ∷ 6 ∷ [])
unfolding split_archived find_index_above
all_above_given_as_below = refl

-- Of two archived versions that the server does not have any more, the second one stays.
second_stays :
    (remove_arch_versions_not_in_list
      (record no_versions { archived = some (3 ∷ 4 ∷ []) })
      none).0.archived
    ≡ some (4 ∷ [])
unfolding remove_arch_versions_not_in_list rm_arch_version_from rm_non_arch_versions_in get size
second_stays = refl

-- An archived version that the server tells of is noted, and is not saved.
archived_not_saved : (record_status_from_server changed (some (1 ∷ [])) (some 1)).saves ≡ 0
unfolding record_status_from_server remove_arch_versions_not_in_list add_arch_versions_from_list
    add_archived
archived_not_saved = refl

-- Version 3 is a difference on 2, and that on nothing: when 2 is absorbed, the links stay.
abbrev three_on_two : ObjStatus
three_on_two = record changed {
  status = record changed.status {
    local = some (record {
      vers = record {
        current = some 3;
        archived = none;
        base_to_diff = (2, 3) ∷ [];
        diff_to_base = (3, 2) ∷ [];
      };
      is_archived = false;
    });
  };
}

absorbed_base_stays_linked :
    (absorb_local_version_base three_on_two 3 2).0.status.local ≡ three_on_two.status.local
unfolding save absorb_local_version_base rm_non_arch_versions_in get size
absorbed_base_stays_linked = refl

count_bytes_in-upload_in_status_example :
    count_bytes_in (new_version upload_of_two)
    ≡ bytes_left (upload_in_status (some (new_version upload_of_two)))
count_bytes_in-upload_in_status_example =
    count_bytes_in-upload_in_status (new_version upload_of_two)

-- The upload goes on once, and is cancelled for its version and for another one.
abbrev upload_going_on : NewVersionUpload
upload_going_on = record upload_of_two { base_version = some 1 }

record_upload_cancellation-record_all_example :
    let started = record_upload_start changed upload_of_two in
    let going = record_all started.0 (upload_going_on ∷ []) in
    let last = uploading changed (some (new_version upload_going_on)) 2 in
    (started ≡ (uploading changed (some (new_version upload_of_two)) 1, ok tt))
    × (going ≡ (last, ok tt))
    × (record_upload_cancellation going.0 upload_of_two ≡ (record changed { saves = 3 }, ok tt))
record_upload_cancellation-record_all_example =
    record_upload_cancellation-record_all changed upload_of_two (upload_going_on ∷ []) upload_of_two
      refl refl (refl, tt)

-- The first upload of a version, with nothing on the server.
abbrev unknown_to_server : ObjStatus
unknown_to_server = record changed {
  status = record changed.status {
    synced = none;
    remote = record { vers = no_versions; is_archived = false };
  };
}

record_upload_completion-record_upload_start_example :
    let completed =
      record_upload_completion (record_upload_start unknown_to_server upload_of_two).0 2 2 in
    (completed.1 ≡ ok tt) × IsSettled 2 completed.0
record_upload_completion-record_upload_start_example =
    record_upload_completion-record_upload_start unknown_to_server upload_of_two local_two refl refl
      refl tt tt refl refl

record_remote_removal_completion-remove_current_version_example :
    IsRemoved (record_remote_removal_completion (remove_current_version changed).0).0
record_remote_removal_completion-remove_current_version_example =
    record_remote_removal_completion-remove_current_version changed 1 refl refl refl refl refl
      (omega arith)

changed-IsInStep : IsInStep changed
unfolding IsInStep sync_state_of
changed-IsInStep = refl

Recorded-IsInStep_example : IsInStep (record_status_from_server changed (some (1 ∷ [])) (some 4))
Recorded-IsInStep_example =
    Recorded-IsInStep {s = changed} (status_told (some (1 ∷ [])) (some 4) tt) changed-IsInStep

-- Without local versions the completion of an upload throws when it has changed the marker, and the
-- indicator shows the state from before.
abbrev without_local : ObjStatus
without_local = record {
  status = record changed.status { local = none; upload = some (new_version upload_of_two) };
  state_indicator = in_sync;
  saves = 0;
}

without_local-IsInStep : IsInStep without_local
unfolding IsInStep sync_state_of
without_local-IsInStep = refl

-- The server has version 3 when the upload of version 2 is completed.
abbrev behind_server : ObjStatus
behind_server = record without_local {
  status = record without_local.status {
    synced = some (record { version = some 3; is_archived = false; base = none });
    remote = record { vers = record no_versions { current = some 3 }; is_archived = false };
  };
}

completed_without_local :
    (sync_state_of (record_upload_completion behind_server 2 2).0.status).1 ≡ behind
unfolding record_upload_completion sync_state_of rm_non_arch_versions_in get size
    set_current_version_in
completed_without_local = refl

completed_without_local_indicator :
    (record_upload_completion behind_server 2 2).0.state_indicator ≡ in_sync
unfolding record_upload_completion
completed_without_local_indicator = refl

-- Without a marker, archived versions that the server tells of change the state, and the indicator
-- does not show it.
told_without_marker :
    (sync_state_of (record_status_from_server unknown_to_server (some (1 ∷ [])) none).status).1
    ≡ conflicting
unfolding record_status_from_server sync_state_of add_arch_versions_from_list
    remove_arch_versions_not_in_list add_archived is_empty_versions
told_without_marker = refl

told_without_marker_indicator :
    (record_status_from_server unknown_to_server (some (1 ∷ [])) none).state_indicator ≡ unsynced
unfolding record_status_from_server add_arch_versions_from_list remove_arch_versions_not_in_list
told_without_marker_indicator = refl

-- Version 3 is a difference on 2, and that on 1: when 2 is absorbed, 3 and 2 are both on 1.
abbrev three_on_two_on_one : ObjStatus
three_on_two_on_one = record changed {
  status = record changed.status {
    local = some (record {
      vers = record {
        current = some 3;
        archived = none;
        base_to_diff = (1, 2) ∷ (2, 3) ∷ [];
        diff_to_base = (2, 1) ∷ (3, 2) ∷ [];
      };
      is_archived = false;
    });
  };
}

absorbed_in_the_middle :
    (absorb_local_version_base three_on_two_on_one 3 2).0.status.local
    ≡ some (record {
      vers = record {
        current = some 3;
        archived = none;
        base_to_diff = (1, 3) ∷ (2, 3) ∷ [];
        diff_to_base = (3, 1) ∷ (2, 1) ∷ [];
      };
      is_archived = false;
    })
unfolding save absorb_local_version_base rm_non_arch_versions_in get size put
    add_base_to_diff_link_in_vers_info
absorbed_in_the_middle = refl
