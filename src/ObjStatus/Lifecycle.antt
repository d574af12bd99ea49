-- ===== src/ObjStatus/Lifecycle.antt =====
-- What follows on what in the methods of `ObjStatus` of
-- ts-code/core/storage/synced/obj-status.ts.
use core_3nweb_client_lib.Base.{
  ℕ, suc, ◌≤◌, ◌≡◌, refl, ◌∙◌, Bool, true, false, ◌||◌, Option, none, some, ◌==◌, ◌=?=◌, ==_refl,
  ok, ◌<◌, lt→ltb, le→leb, if_cases,
}
use core_3nweb_client_lib.Versions.{VersionsInfo, set_current_version_in, rm_current_version_in}
use core_3nweb_client_lib.Versions.Current.{
  rm_non_arch_versions_in-current, set_current_version_in-current, IsBaseBelow,
  set_current_version_in_returns,
}
use core_3nweb_client_lib.StatusInfo.{
  in_sync, LocalVersions, VersionsOnServer, SyncMarker, NewVersionUpload, RemovalUpload, removal,
  sync_state_of, is_synced_current_with_remote, is_current, state_from,
}
use core_3nweb_client_lib.ObjStatus.{
  ObjStatus, update_and_save, save, record_upload_start, record_upload_completion,
  remove_current_version, record_remote_removal_completion, local_is_archived, synced_is_archived,
  synced_version, without_old_base, uploaded_marker, of_versions, uploaded_over,
}

-- The object is in sync with a version that is the current one on the server, and nothing is left
-- of a local version or of an upload.
pub IsSettled : ℕ → ObjStatus → Type 0
IsSettled version s =
    (s.state_indicator ≡ in_sync)
    × (s.status.remote.vers.current ≡ some version)
    × (synced_version s.status.synced ≡ some version)
    × (s.status.local ≡ none)
    × (s.status.upload ≡ none)

or_true : (b : Bool) → (b || true) ≡ true
or_true true = refl
or_true false = refl

without_old_base-current :
    (synced : Option SyncMarker) (base : Option ℕ) (v : VersionsInfo)
    → (without_old_base synced base v).current ≡ v.current
without_old_base-current none base v = refl
without_old_base-current (some synced) base v = by_base synced.base refl
  where
    by_base :
        (old : Option ℕ)
        → synced.base ≡ old
        → (without_old_base (some synced) base v).current ≡ v.current
    by_base none e = rw e refl
    by_base (some old) e = rw e (
        if_cases (λ (t : VersionsInfo). t.current ≡ v.current) (old == 0) (λ _. refl)
          (λ _.
            if_cases (λ (t : VersionsInfo). t.current ≡ v.current) (some old =?= base) (λ _. refl)
              (λ _. rm_non_arch_versions_in-current v old)))

marker-version :
    (synced : Option SyncMarker) (version : ℕ) (base : Option ℕ)
    → (uploaded_marker synced version base).version ≡ some version
marker-version none version base = refl
marker-version (some synced) version base = refl

marker-is_archived :
    (synced : Option SyncMarker) (version : ℕ) (base : Option ℕ)
    → synced_is_archived synced ≡ false
    → (uploaded_marker synced version base).is_archived ≡ false
marker-is_archived none version base h = refl
marker-is_archived (some synced) version base h = h

-- After `updateStateIndicator`, with a marker that agrees with the server and no local version.
update_and_save-IsSettled :
    (s : ObjStatus) (synced : SyncMarker) (remote : VersionsOnServer) (version : ℕ)
    → synced.version ≡ some version
    → remote.vers.current ≡ some version
    → synced.is_archived ≡ false
    → remote.is_archived ≡ false
    → IsSettled version (
        update_and_save s
          (record { local = none; synced = some synced; remote = remote; upload = none }))
unfolding IsSettled update_and_save sync_state_of is_synced_current_with_remote is_current
    state_from
update_and_save-IsSettled s synced remote version h1 h2 h3 h4 =
    (rw h1 (rw h2 (rw (==_refl version) (rw h3 (rw h4 refl)))), h2, h1, refl, refl)

-- No version on the server, or none above.
abbrev pub IsNoneAbove : Option ℕ → ℕ → Type 0
IsNoneAbove none version = Unit
IsNoneAbove (some current) version = current ≤ version

uploaded_over-eq :
    (current : Option ℕ) (remote w : VersionsInfo) (version : ℕ) (base : Option ℕ)
    → IsNoneAbove current version
    → set_current_version_in remote version base ≡ ok w
    → uploaded_over current remote version base ≡ ok w
unfolding of_versions
uploaded_over-eq none remote w version base h set = rw set refl
uploaded_over-eq (some c) remote w version base h set =
    rw (le→leb c version h, or_true (c == 0), set) refl

-- An upload of the current local version, with a base that is absent or lower than the uploaded
-- version, when the server has no version or none above the uploaded one, and nothing is archived:
-- its completion returns, and after the start and the completion the object is in sync, the uploaded
-- version is the synced and the current one, and neither a local version nor the upload is left.
pub record_upload_completion-record_upload_start :
    (s : ObjStatus) (info : NewVersionUpload) (local : LocalVersions)
    → s.status.upload ≡ none
    → s.status.local ≡ some local
    → local.vers.current ≡ some info.local_version
    → IsNoneAbove s.status.remote.vers.current info.upload_version
    → IsBaseBelow info.base_version info.upload_version
    → s.status.remote.is_archived ≡ false
    → synced_is_archived s.status.synced ≡ false
    → let completed =
        record_upload_completion
          (record_upload_start s info).0
          info.local_version
          info.upload_version in
      (completed.1 ≡ ok tt) × IsSettled info.upload_version completed.0
unfolding record_upload_start record_upload_completion save update_and_save
record_upload_completion-record_upload_start s info local h1 h2 h3 h4 h5 h6 h7 =
    let (v, set) =
      set_current_version_in_returns s.status.remote.vers info.upload_version info.base_version
        h5 in
    rw
      (
        h1,
        h2,
        h3,
        ==_refl info.local_version,
        ==_refl info.upload_version,
        uploaded_over-eq s.status.remote.vers.current s.status.remote.vers v info.upload_version
            info.base_version h4 set,
        ==_refl info.local_version,
      )
      (
        refl,
        update_and_save-IsSettled (record s { saves = suc s.saves })
            (uploaded_marker s.status.synced info.upload_version info.base_version) _
            info.upload_version
            (marker-version s.status.synced info.upload_version info.base_version)
            (without_old_base-current s.status.synced info.base_version v
              ∙ set_current_version_in-current _ v info.upload_version info.base_version set)
            (marker-is_archived s.status.synced info.upload_version info.base_version h7) h6,
      )

-- The removal of an object is done, here and on the server.
pub IsRemoved : ObjStatus → Type 0
IsRemoved s =
    (s.state_indicator ≡ in_sync)
    × (s.status.local ≡ none)
    × (s.status.upload ≡ none)
    × (synced_is_archived s.status.synced ≡ true)
    × (s.status.remote.vers.current ≡ none)
    × (s.status.remote.is_archived ≡ true)

completed_removal-IsRemoved :
    (s : ObjStatus) (r : RemovalUpload)
    → s.status.upload ≡ some (removal r)
    → synced_is_archived s.status.synced ≡ false
    → IsRemoved (record_remote_removal_completion s).0
unfolding record_remote_removal_completion update_and_save IsRemoved sync_state_of
    is_synced_current_with_remote is_current state_from rm_current_version_in
completed_removal-IsRemoved s r h1 h2 = rw (h2, h1) (refl, refl, refl, refl, refl, refl)

-- `removeCurrentVersion` leaves the removal of the version on the server to be done.
removal_is_left :
    (s : ObjStatus) (c : ℕ)
    → s.status.upload ≡ none
    → local_is_archived s.status.local ≡ false
    → synced_is_archived s.status.synced ≡ false
    → s.status.remote.is_archived ≡ false
    → s.status.remote.vers.current ≡ some c
    → 0 < c
    → ((r : RemovalUpload) × ((remove_current_version s).0.status.upload ≡ some (removal r)))
      × (synced_is_archived (remove_current_version s).0.status.synced ≡ false)
unfolding remove_current_version update_and_save sync_state_of
removal_is_left s c h1 h2 h3 h4 h5 h6 = rw (h3, h2, h1, h4, h5, lt→ltb 0 c h6) ((_, refl), h3)

-- A current version that is on the server, with nothing archived and no upload: after
-- `removeCurrentVersion` and then `recordRemoteRemovalCompletion` the removal is done and in sync.
pub record_remote_removal_completion-remove_current_version :
    (s : ObjStatus) (c : ℕ)
    → s.status.upload ≡ none
    → local_is_archived s.status.local ≡ false
    → synced_is_archived s.status.synced ≡ false
    → s.status.remote.is_archived ≡ false
    → s.status.remote.vers.current ≡ some c
    → 0 < c
    → IsRemoved (record_remote_removal_completion (remove_current_version s).0).0
record_remote_removal_completion-remove_current_version s c h1 h2 h3 h4 h5 h6 =
    let ((r, left), unsynced) = removal_is_left s c h1 h2 h3 h4 h5 h6 in
    completed_removal-IsRemoved (remove_current_version s).0 r left unsynced
