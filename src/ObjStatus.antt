-- ===== src/ObjStatus.antt =====
-- The class `ObjStatus` of ts-code/core/storage/synced/obj-status.ts. A method gives the status
-- after it, together with what it returns or throws. `saves` counts the calls of
-- `saveProc.trigger`, which are taken to succeed.
pub mod Local
pub mod Lifecycle
pub mod Uploading
pub mod Indicator
pub mod Changes
pub mod Recorded
mod Runs
use core_3nweb_client_lib.Base.{
  ℕ, zero, suc, ◌+◌, ◌≤◌, Bool, true, false, not, ◌&&◌, ◌||◌, Option, none, some, List, [], ◌∷◌,
  ◌++◌, includes, leb, ltb, ◌==◌, ◌=?=◌, truthy, if◌then◌else◌, Outcome, ok, throws, ◌>>=◌,
}
use core_3nweb_client_lib.Base.NumMap.{get}
use core_3nweb_client_lib.Versions.{
  VersionsInfo, VersionsError, set_current_version_in, rm_current_version_in,
  rm_non_arch_versions_in, rm_arch_version_from, add_archived, add_base_to_diff_link_in_vers_info,
  is_version_in, is_archived_in,
}
use core_3nweb_client_lib.StatusInfo.{
  SyncState, in_sync, unsynced, behind, conflicting, LocalVersions, VersionsOnServer, SyncMarker,
  NewVersionUpload, RemovalUpload, UploadInfo, new_version, removal, ObjStatusInfo, no_versions,
  make_obj_status_info, is_remote_empty, is_current, sync_state_of, StatusError, no_local,
  obj_not_found, concurrent_update, already_uploading, version_not_found, no_new_version_upload,
  no_upload, versions_dont_match, no_removal, conflict, version_mismatch, assertion_failed,
  version_not_above_base, above_remote, remove_arch_versions_not_in_list,
  add_arch_versions_from_list, SyncVersionsBranch, versions_to_branch, UploadingState,
  upload_in_status,
}
use core_3nweb_client_lib.StatusInfo.Kept.{NonGarbage, identify_non_garbage}

pub record ObjStatus : Type 0 where
  pub status : ObjStatusInfo
  pub state_indicator : SyncState
  pub saves : ℕ

abbrev pub Done : Type 0 → Type 0
Done A = ObjStatus × Outcome StatusError A

-- `updateStateIndicator` and `triggerSaveProc`, and the latter alone.
pub update_and_save : ObjStatus → ObjStatusInfo → ObjStatus
update_and_save s info =
    let (info', state) = sync_state_of info in
    record { status = info'; state_indicator = state; saves = suc s.saves }

unfoldable pub save : ObjStatus → ObjStatusInfo → ObjStatus
save s info = record s { status = info; saves = suc s.saves }

-- The constructor.
pub of_status : ObjStatusInfo → ObjStatus
of_status info =
    let (info', state) = sync_state_of info in
    record { status = info'; state_indicator = state; saves = 0 }

unfoldable pub make_new : ObjStatus
unfolding of_status save
make_new = let s = of_status make_obj_status_info in save s s.status

downloaded_info : ℕ → Option (List ℕ) → ObjStatusInfo
downloaded_info current_remote archived = record make_obj_status_info {
  remote = record {
    vers = record no_versions { current = some current_remote; archived = archived };
    is_archived = false;
  };
  synced = some (record { version = some current_remote; is_archived = false; base = none });
}

unfoldable pub make_for_downloaded_version : ℕ → ℕ → Outcome StatusError ObjStatus
unfolding of_status save downloaded_info
make_for_downloaded_version version current_remote =
    let with_archived = of_status (downloaded_info current_remote (some (version ∷ []))) in
    let with_current = of_status (downloaded_info current_remote none) in
    if ltb version current_remote
    then ok (save with_archived with_archived.status)
    else if current_remote == version
    then ok (save with_current with_current.status)
    else throws above_remote

unfoldable pub is_in_sync : SyncState → Bool
is_in_sync in_sync = true
is_in_sync _ = false

unfoldable pub file_shows_obj_not_in_synced_state : ObjStatusInfo → Bool
unfolding is_in_sync
file_shows_obj_not_in_synced_state info = not (is_in_sync (sync_state_of info).1)

unfoldable pub needs_removal_on_remote : ObjStatusInfo → Bool
needs_removal_on_remote info = elim info.upload [
  | none ↦ false
  | some up ↦ elim up [ new_version n ↦ false | removal r ↦ not r.is_postponed ]
]

pub clear_postpone_flag_in_removal_on_remote : ObjStatus → Done Bool
unfolding save
clear_postpone_flag_in_removal_on_remote s = elim s.status.upload [
  | none ↦ (s, ok false)
  | some up ↦ elim up [
    | new_version n ↦ (s, throws no_removal)
    | removal r ↦ (
      save s (record s.status { upload = some (removal (record r { is_postponed = false })) }),
      ok true,
    )
  ]
]

abbrev pub local_is_archived : Option LocalVersions → Bool
local_is_archived none = false
local_is_archived (some local) = local.is_archived

abbrev pub synced_is_archived : Option SyncMarker → Bool
synced_is_archived none = false
synced_is_archived (some synced) = synced.is_archived

abbrev pub local_current : Option LocalVersions → Option ℕ
local_current none = none
local_current (some local) = local.vers.current

abbrev pub synced_version : Option SyncMarker → Option ℕ
synced_version none = none
synced_version (some synced) = synced.version

-- The version for a state of the indicator.
abbrev version_in_state : SyncState → ObjStatusInfo → Option ℕ
version_in_state unsynced info = local_current info.local
version_in_state conflicting info = local_current info.local
version_in_state _ info = synced_version info.synced

abbrev found : Option ℕ → Outcome StatusError ℕ
found none = throws obj_not_found
found (some v) = if v == 0 then throws obj_not_found else ok v

unfoldable pub get_current_local_or_synced : ObjStatus → Outcome StatusError ℕ
get_current_local_or_synced s = found (version_in_state s.state_indicator s.status)

unfoldable pub get_non_garbage_versions : ObjStatus → Outcome StatusError NonGarbage
get_non_garbage_versions s = identify_non_garbage s.status

-- The upload that removes what is on the server, where there is a current version there.
abbrev removal_upload : ObjStatusInfo → Option UploadInfo
removal_upload info =
    if not info.remote.is_archived && truthy info.remote.vers.current
    then some (
        removal (record {
          local_version =
              if truthy (local_current info.local)
              then local_current info.local
              else synced_version info.synced;
          is_postponed = true;
        }))
    else none

abbrev archived_local : Option LocalVersions → LocalVersions
archived_local none = record { vers = no_versions; is_archived = true }
archived_local (some local) = record {
  vers = record local.vers { current = none };
  is_archived = true;
}

pub remove_current_version : ObjStatus → Done (Unit {0})
unfolding update_and_save
remove_current_version s =
    if synced_is_archived s.status.synced || local_is_archived s.status.local
    then (s, ok tt)
    else elim s.status.upload [
      | some up ↦ elim up [ removal r ↦ (s, ok tt) | new_version n ↦ (s, throws concurrent_update) ]
      | none ↦ (
        update_and_save s (record s.status {
          upload = removal_upload s.status;
          local = some (archived_local s.status.local);
        }),
        ok tt,
      )
    ]

unfoldable pub record_upload_start : ObjStatus → NewVersionUpload → Done (Unit {0})
unfolding save
record_upload_start s info = elim s.status.upload [
  | some up ↦ (s, throws already_uploading)
  | none ↦
      if some info.local_version =?= local_current s.status.local
      then (save s (record s.status { upload = some (new_version info) }), ok tt)
      else (s, throws version_not_found)
]

unfoldable pub record_upload_interim_state : ObjStatus → NewVersionUpload → Done (Unit {0})
unfolding save
record_upload_interim_state s info = elim s.status.upload [
  | none ↦ (s, throws no_new_version_upload)
  | some up ↦ elim up [
    | removal r ↦ (s, throws no_new_version_upload)
    | new_version n ↦
        if n.upload_version == info.upload_version
        then (save s (record s.status { upload = some (new_version info) }), ok tt)
        else (s, throws versions_dont_match)
  ]
]

unfoldable pub record_upload_cancellation : ObjStatus → NewVersionUpload → Done (Unit {0})
unfolding save
record_upload_cancellation s info = elim s.status.upload [
  | none ↦ (s, throws no_upload)
  | some up ↦ elim up [
    | removal r ↦ (s, throws no_upload)
    | new_version n ↦
        if n.upload_version == info.upload_version
        then (save s (record s.status { upload = none }), ok tt)
        else (s, throws versions_dont_match)
  ]
]

pub of_versions : Outcome VersionsError VersionsInfo → Outcome StatusError VersionsInfo
of_versions (ok v) = ok v
of_versions (throws e) = throws version_not_above_base

-- The current version on the server after an upload, from the one before it.
abbrev pub uploaded_over : Option ℕ → VersionsInfo → ℕ → Option ℕ → Outcome StatusError VersionsInfo
uploaded_over none remote version base = of_versions (set_current_version_in remote version base)
uploaded_over (some c) remote version base =
    if c == 0 || leb c version
    then of_versions (set_current_version_in remote version base)
    else ok remote

abbrev pub uploaded_remote : VersionsInfo → ℕ → Option ℕ → Outcome StatusError VersionsInfo
uploaded_remote remote version base = uploaded_over remote.current remote version base

-- The links of the last synced base go, where the new one has another.
abbrev pub without_old_base : Option SyncMarker → Option ℕ → VersionsInfo → VersionsInfo
without_old_base none base v = v
without_old_base (some synced) base v = elim synced.base [
  | none ↦ v
  | some old ↦
      if old == 0 then v else if some old =?= base then v else rm_non_arch_versions_in v old
]

abbrev pub uploaded_marker : Option SyncMarker → ℕ → Option ℕ → SyncMarker
uploaded_marker none version base = record {
  version = some version;
  is_archived = false;
  base = base;
}
uploaded_marker (some synced) version base = record synced { version = some version; base = base }

-- What follows `setCurrentVersionIn`. Without a local version the source fails when the marker
-- and the remote versions have been changed.
abbrev pub complete_upload : ObjStatus → ℕ → ℕ → Option ℕ → VersionsInfo → Done (Unit {0})
complete_upload s local_version upload_version base v =
    let info : ObjStatusInfo = record s.status {
      remote = record s.status.remote { vers = without_old_base s.status.synced base v };
      synced = some (uploaded_marker s.status.synced upload_version base);
    } in
    elim s.status.local [
      | none ↦ (record s { status = info }, throws no_local)
      | some local ↦ (
        update_and_save s (record info {
          local = if local.vers.current =?= some local_version then none else some local;
          upload = none;
        }),
        ok tt,
      )
    ]

abbrev pub when_set :
    ObjStatus
    → Outcome StatusError VersionsInfo
    → (VersionsInfo → Done (Unit {0}))
    → Done (Unit {0})
when_set s (ok v) next = next v
when_set s (throws e) next = (s, throws e)

unfoldable pub record_upload_completion : ObjStatus → ℕ → ℕ → Done (Unit {0})
unfolding update_and_save of_versions
record_upload_completion s local_version upload_version = elim s.status.upload [
  | none ↦ (s, throws versions_dont_match)
  | some up ↦ elim up [
    | removal r ↦ (s, throws versions_dont_match)
    | new_version n ↦
        if n.upload_version == upload_version
        then when_set s (uploaded_remote s.status.remote.vers upload_version n.base_version)
            (λ v. complete_upload s local_version upload_version n.base_version v)
        else (s, throws versions_dont_match)
  ]
]

-- The remote versions and whether they have changed, and saving when they have.
abbrev pub saved_if : ObjStatus → VersionsInfo × Bool → ObjStatus
saved_if s (v, false) = s
saved_if s (v, true) = save s (record s.status { remote = record s.status.remote { vers = v } })

unfoldable pub record_arch_version_removal : ObjStatus → ℕ → ObjStatus
unfolding save
record_arch_version_removal s version =
    saved_if s (rm_arch_version_from s.status.remote.vers version)

unfoldable pub record_version_archival : ObjStatus → ℕ → ObjStatus
unfolding save
record_version_archival s version = saved_if s (add_archived s.status.remote.vers version)

abbrev removed_on_server : VersionsOnServer → VersionsOnServer
removed_on_server remote = record {
  vers = (rm_current_version_in remote.vers).0;
  is_archived = true;
}

pub record_remote_removal : ObjStatus → ObjStatus
unfolding update_and_save
record_remote_removal s =
    if local_is_archived s.status.local || synced_is_archived s.status.synced
    then s
    else update_and_save s (record s.status { remote = removed_on_server s.status.remote })

unfoldable pub record_remote_removal_completion : ObjStatus → Done (Unit {0})
unfolding update_and_save
record_remote_removal_completion s =
    if synced_is_archived s.status.synced then (s, ok tt) else elim s.status.upload [
      | none ↦ (s, throws no_removal)
      | some up ↦ elim up [
        | new_version n ↦ (s, throws no_removal)
        | removal r ↦ (
          update_and_save s (record {
            local = none;
            synced = some (record { version = none; is_archived = true; base = none });
            remote = removed_on_server s.status.remote;
            upload = none;
          }),
          ok tt,
        )
      ]
    ]

abbrev pub uploads_version : Option UploadInfo → ℕ → Bool
uploads_version (some (new_version n)) version = n.upload_version == version
uploads_version _ version = false

abbrev pub synced_reaches : Option SyncMarker → ℕ → Bool
synced_reaches none version = false
synced_reaches (some synced) version = elim synced.version [
  | none ↦ false
  | some v ↦ ltb 0 v && leb version v
]

pub record_remote_change : ObjStatus → ℕ → ObjStatus
unfolding update_and_save
record_remote_change s version =
    if uploads_version s.status.upload version || synced_reaches s.status.synced version
    then s
    else update_and_save s (record s.status {
      remote = record s.status.remote {
        vers = record s.status.remote.vers { current = some version };
      };
    })
