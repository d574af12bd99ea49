-- ===== src/ObjStatus/Indicator.antt =====
-- The state indicator of `ObjStatus` of ts-code/core/storage/synced/obj-status.ts against what
-- `syncStateOf` tells of the status.
use core_3nweb_client_lib.Base.{
  ℕ, ◌≡◌, refl, ap, ◌∙◌, Bool, true, false, not, ◌&&◌, ◌||◌, Option, none, some, List, [], ◌∷◌,
  truthy, ◌==◌, ◌=?=◌, if_cases,
}
use core_3nweb_client_lib.Base.NumMap.{NumMap}
use core_3nweb_client_lib.Versions.{VersionsInfo, is_empty_versions}
use core_3nweb_client_lib.StatusInfo.{
  SyncState, LocalVersions, VersionsOnServer, SyncMarker, NewVersionUpload, UploadInfo, new_version,
  removal, ObjStatusInfo, sync_state_of, is_synced_current_with_remote, is_remote_empty,
  empty_answer, state_from,
}
use core_3nweb_client_lib.ObjStatus.{
  ObjStatus, Done, local_is_archived, synced_is_archived, local_current, uploads_version,
  synced_reaches, update_and_save, save, clear_postpone_flag_in_removal_on_remote,
  remove_current_version, record_upload_start, record_upload_interim_state,
  record_upload_cancellation, record_remote_removal, record_remote_removal_completion,
  record_remote_change,
}

-- The indicator shows the state of the status.
unfoldable pub IsInStep : ObjStatus → Type 0
IsInStep s = (sync_state_of s.status).1 ≡ s.state_indicator

abbrev info_of : Option ℕ → Option (List ℕ) → NumMap → NumMap → VersionsInfo
info_of c vs b d = record { current = c; archived = vs; base_to_diff = b; diff_to_base = d }

-- An empty list that has given way to `undefined` is given up once.
empty_again :
    (c : Option ℕ) (vs : Option (List ℕ)) (b d : NumMap) (t : Bool)
    → truthy c ≡ t
    → (is_empty_versions (is_empty_versions (info_of c vs b d)).0).1
      ≡ (is_empty_versions (info_of c vs b d)).1
unfolding is_empty_versions
empty_again c vs b d true e = rw (e, e) refl
empty_again c none b d false e = rw (e, e) refl
empty_again c (some []) b d false e = rw (e, e) refl
empty_again c (some (x ∷ xs)) b d false e = rw (e, e) refl

remote_again :
    (r : VersionsOnServer) (t : Bool)
    → (is_remote_empty r).1 ≡ t
    → (is_remote_empty (is_remote_empty r).0).1 ≡ t
unfolding is_remote_empty
remote_again r t e =
    ap (λ (u : Bool). u && not r.is_archived)
      (empty_again r.vers.current r.vers.archived r.vers.base_to_diff r.vers.diff_to_base
        (truthy r.vers.current) refl)
    ∙ e

answer_of :
    (q : VersionsOnServer × Bool) (t : Bool)
    → q.1 ≡ t
    → (empty_answer q).1 ≡ (empty_answer (q.0, t)).1
answer_of q t e = rw e refl

answer_remote : (q : VersionsOnServer × Bool) → (empty_answer q).0 ≡ q.0
answer_remote (r, true) = refl
answer_remote (r, false) = refl

answer_flag :
    (r r' : VersionsOnServer) (t : Bool) → (empty_answer (r, t)).1 ≡ (empty_answer (r', t)).1
answer_flag r r' true = refl
answer_flag r r' false = refl

answer_again :
    (y : Option SyncMarker) (r : VersionsOnServer)
    → (is_synced_current_with_remote y (is_synced_current_with_remote y r).0).1
      ≡ (is_synced_current_with_remote y r).1
unfolding is_synced_current_with_remote
answer_again (some y) r = refl
answer_again none r =
    ap (λ (u : VersionsOnServer). (empty_answer (is_remote_empty u)).1)
      (answer_remote (is_remote_empty r))
    ∙ answer_of (is_remote_empty (is_remote_empty r).0) (is_remote_empty r).1
        (remote_again r _ refl)
    ∙ answer_flag _ (is_remote_empty r).0 (is_remote_empty r).1

state_again : (s : ObjStatusInfo) → (sync_state_of (sync_state_of s).0).1 ≡ (sync_state_of s).1
unfolding sync_state_of
state_again s = ap (state_from s.local s.synced) (answer_again s.synced s.remote)

-- After `updateStateIndicator` the indicator is in step, whatever was done to the status before.
pub update_and_save-IsInStep :
    (s : ObjStatus) (info : ObjStatusInfo) → IsInStep (update_and_save s info)
unfolding IsInStep update_and_save
update_and_save-IsInStep s info = state_again info

abbrev pub obj :
    Option LocalVersions
    → Option SyncMarker
    → VersionsOnServer
    → Option UploadInfo
    → SyncState
    → ℕ
    → ObjStatus
obj l y r u state n = record {
  status = record { local = l; synced = y; remote = r; upload = u };
  state_indicator = state;
  saves = n;
}

-- A method that gives back a status in step.
abbrev pub Keeps : {A : Type 0} → Done A → Type 0
Keeps d = IsInStep d.0

-- Uploads have no part in the state.
pub save_upload-IsInStep :
    (s : ObjStatus) (u : Option UploadInfo)
    → IsInStep s
    → IsInStep (save s (record s.status { upload = u }))
unfolding IsInStep save sync_state_of
save_upload-IsInStep s u h = h

module _ (l : Option LocalVersions) (y : Option SyncMarker) (r : VersionsOnServer)
    (state : SyncState) (n : ℕ) where
  pub clears :
      (u : Option UploadInfo)
      → IsInStep (obj l y r u state n)
      → Keeps (clear_postpone_flag_in_removal_on_remote (obj l y r u state n))
  unfolding clear_postpone_flag_in_removal_on_remote
  clears none h = h
  clears (some (new_version up)) h = h
  clears (some (removal up)) h = save_upload-IsInStep (obj l y r (some (removal up)) state n) _ h

  pub removes :
      (u : Option UploadInfo)
      → IsInStep (obj l y r u state n)
      → Keeps (remove_current_version (obj l y r u state n))
  unfolding remove_current_version
  removes none h =
      if_cases Keeps (synced_is_archived y || local_is_archived l) (λ _. h)
        (λ _. update_and_save-IsInStep (obj l y r none state n) _)
  removes (some (new_version up)) h =
      if_cases Keeps (synced_is_archived y || local_is_archived l) (λ _. h) (λ _. h)
  removes (some (removal up)) h =
      if_cases Keeps (synced_is_archived y || local_is_archived l) (λ _. h) (λ _. h)

  pub starts :
      (u : Option UploadInfo) (info : NewVersionUpload)
      → IsInStep (obj l y r u state n)
      → Keeps (record_upload_start (obj l y r u state n) info)
  unfolding record_upload_start
  starts none info h =
      if_cases Keeps (some info.local_version =?= local_current l)
        (λ _. save_upload-IsInStep (obj l y r none state n) _ h) (λ _. h)
  starts (some up) info h = h

  pub goes_on :
      (u : Option UploadInfo) (info : NewVersionUpload)
      → IsInStep (obj l y r u state n)
      → Keeps (record_upload_interim_state (obj l y r u state n) info)
  unfolding record_upload_interim_state
  goes_on none info h = h
  goes_on (some (removal up)) info h = h
  goes_on (some (new_version up)) info h =
      if_cases Keeps (up.upload_version == info.upload_version)
        (λ _. save_upload-IsInStep (obj l y r (some (new_version up)) state n) _ h) (λ _. h)

  pub cancels :
      (u : Option UploadInfo) (info : NewVersionUpload)
      → IsInStep (obj l y r u state n)
      → Keeps (record_upload_cancellation (obj l y r u state n) info)
  unfolding record_upload_cancellation
  cancels none info h = h
  cancels (some (removal up)) info h = h
  cancels (some (new_version up)) info h =
      if_cases Keeps (up.upload_version == info.upload_version)
        (λ _. save_upload-IsInStep (obj l y r (some (new_version up)) state n) _ h) (λ _. h)

  pub completes_removal :
      (u : Option UploadInfo)
      → IsInStep (obj l y r u state n)
      → Keeps (record_remote_removal_completion (obj l y r u state n))
  unfolding record_remote_removal_completion
  completes_removal none h = if_cases Keeps (synced_is_archived y) (λ _. h) (λ _. h)
  completes_removal (some (new_version up)) h =
      if_cases Keeps (synced_is_archived y) (λ _. h) (λ _. h)
  completes_removal (some (removal up)) h =
      if_cases Keeps (synced_is_archived y) (λ _. h)
        (λ _. update_and_save-IsInStep (obj l y r (some (removal up)) state n) _)

pub removed_remotely : (s : ObjStatus) → IsInStep s → IsInStep (record_remote_removal s)
unfolding record_remote_removal
removed_remotely s h =
    if_cases IsInStep (local_is_archived s.status.local || synced_is_archived s.status.synced)
      (λ _. h) (λ _. update_and_save-IsInStep s _)

pub changes_remotely :
    (s : ObjStatus) (version : ℕ) → IsInStep s → IsInStep (record_remote_change s version)
unfolding record_remote_change
changes_remotely s version h =
    if_cases IsInStep
      (uploads_version s.status.upload version || synced_reaches s.status.synced version) (λ _. h)
      (λ _. update_and_save-IsInStep s _)
