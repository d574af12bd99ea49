-- ===== src/ObjStatus/Changes.antt =====
-- Methods of `ObjStatus` that keep the state indicator in step with the status, of
-- ts-code/core/storage/synced/obj-status.ts that change the status.
use core_3nweb_client_lib.Base.{
  ℕ, suc, ◌≡◌, refl, sym, ap, ◌∙◌, subst, Bool, true, false, ◌||◌, Option, none, some, List, truthy,
  ◌==◌, ◌=?=◌, if_cases, Outcome, ok, throws,
}
use core_3nweb_client_lib.Base.NumMap.{get}
use core_3nweb_client_lib.Versions.{
  VersionsInfo, VersionsError, rm_non_arch_versions_in, add_archived, set_current_version_in,
}
use core_3nweb_client_lib.Versions.Current.{rm_arch_version_from-current, add_archived-current}
use core_3nweb_client_lib.StatusInfo.{
  SyncState, in_sync, unsynced, behind, conflicting, LocalVersions, VersionsOnServer, SyncMarker,
  UploadInfo, new_version, removal, StatusError, sync_state_of, is_synced_current_with_remote,
  is_current, state_from, remove_arch_versions_not_in_list, add_arch_versions_from_list,
}
use core_3nweb_client_lib.StatusInfo.FromServer.{
  add_arch_versions_from_list-current, remove_arch_versions_not_in_list-current,
}
use core_3nweb_client_lib.ObjStatus.{
  ObjStatus, save, record_upload_completion, uploaded_remote, when_set, complete_upload, saved_if,
  record_arch_version_removal, record_version_archival,
}
use core_3nweb_client_lib.ObjStatus.Local.{
  current_from_server, remote_below, record_status_from_server, set_local_current_version,
  archive_marked, set_local, absorb_into, adopt_current, absorb_local_version_base, adopt,
  adopt_in_state, with_lower_base, is_among_remote,
}
use core_3nweb_client_lib.ObjStatus.Indicator.{IsInStep, update_and_save-IsInStep, obj, Keeps}

last_false : (a b : Bool) → (a || b) ≡ false → b ≡ false
last_false true b h = cc h
last_false false b h = h

-- When no change is told of, there is none.
current_from_server-unchanged :
    (r : VersionsOnServer) (current : Option ℕ)
    → (current_from_server r current).1 ≡ false
    → (current_from_server r current).0 ≡ r
unfolding current_from_server
current_from_server-unchanged r current =
    if_cases Unchanged (truthy current)
      (λ _.
        if_cases Unchanged (truthy r.vers.current)
          (λ _.
            if_cases Unchanged (remote_below r.vers.current current) (λ _ h. cc h) (λ _ h. refl))
          (λ _ h. cc h))
      (λ _. if_cases Unchanged (truthy r.vers.current) (λ _ h. cc h) (λ _ h. refl))
  where
    Unchanged : VersionsOnServer × Bool → Type 0
    Unchanged (t, changed) = changed ≡ false → t ≡ r

module _ (l : Option LocalVersions) (m : SyncMarker) (r : VersionsOnServer) (u : Option UploadInfo)
    (state : SyncState) (n : ℕ) where
  -- With a marker the state depends on the server's current version alone, not on archived ones.
  remote_versions-IsInStep :
      (k : ℕ) (v : VersionsInfo)
      → v.current ≡ r.vers.current
      → IsInStep (obj l (some m) r u state n)
      → IsInStep (obj l (some m) (record r { vers = v }) u state k)
  unfolding IsInStep sync_state_of is_synced_current_with_remote is_current
  remote_versions-IsInStep k v e h =
      ap
        (λ (c : Option ℕ).
          state_from l (some m)
            (some (is_current m (record r { vers = record v { current = c } }))))
        e
      ∙ h

  saved_if-IsInStep :
      (w : VersionsInfo × Bool)
      → w.0.current ≡ r.vers.current
      → IsInStep (obj l (some m) r u state n)
      → IsInStep (saved_if (obj l (some m) r u state n) w)
  unfolding save
  saved_if-IsInStep (v, false) e h = h
  saved_if-IsInStep (v, true) e h = remote_versions-IsInStep _ v e h

  pub archived_removed :
      (version : ℕ)
      → IsInStep (obj l (some m) r u state n)
      → IsInStep (record_arch_version_removal (obj l (some m) r u state n) version)
  unfolding record_arch_version_removal
  archived_removed version h = saved_if-IsInStep _ (rm_arch_version_from-current r.vers version) h

  pub archived_added :
      (version : ℕ)
      → IsInStep (obj l (some m) r u state n)
      → IsInStep (record_version_archival (obj l (some m) r u state n) version)
  unfolding record_version_archival
  archived_added version h = saved_if-IsInStep _ (add_archived-current r.vers version) h

  pub archives_marked :
      (o : Option ℕ)
      → IsInStep (obj l (some m) r u state n)
      → Keeps (archive_marked o (obj l (some m) r u state n))
  unfolding save
  archives_marked none h = h
  archives_marked (some v) h =
      if_cases Keeps (v == 0) (λ _. h)
        (λ _.
          remote_versions-IsInStep _ (add_archived r.vers v).0 (add_archived-current r.vers v) h)

  pub server_told :
      (archived : Option (List ℕ)) (current : Option ℕ)
      → IsInStep (obj l (some m) r u state n)
      → IsInStep (record_status_from_server (obj l (some m) r u state n) archived current)
  unfolding record_status_from_server
  server_told archived current h =
      let (remote, changed) = current_from_server r current in
      let (v1, removed) = remove_arch_versions_not_in_list remote.vers archived in
      let (v2, added) = add_arch_versions_from_list v1 archived in
      if_cases IsInStep (removed || added || changed)
        (λ _. update_and_save-IsInStep (obj l (some m) r u state n) _)
        (λ e.
          let unchanged : remote ≡ r =
            current_from_server-unchanged r current (last_false _ changed e) in
          subst
            (λ (t : VersionsOnServer). IsInStep (obj l (some m) (record t { vers = v2 }) u state n))
            (sym unchanged)
            (remote_versions-IsInStep n v2
              (add_arch_versions_from_list-current v1 archived
                ∙ remove_arch_versions_not_in_list-current remote.vers archived
                ∙ ap (λ (t : VersionsOnServer). t.vers.current) unchanged)
              h))

-- Of the local versions only their presence and their archiving have a part in the state.
state_from-vers :
    (local : LocalVersions) (v : VersionsInfo) (y : Option SyncMarker) (answer : Option Bool)
    → state_from (some (record local { vers = v })) y answer ≡ state_from (some local) y answer
unfolding state_from
state_from-vers local v y none = refl
state_from-vers local v y (some true) = refl
state_from-vers local v y (some false) = refl

local_versions-IsInStep :
    (local : LocalVersions) (v : VersionsInfo) (y : Option SyncMarker) (r : VersionsOnServer)
    (u : Option UploadInfo) (state : SyncState) (n k : ℕ)
    → IsInStep (obj (some local) y r u state n)
    → IsInStep (obj (some (record local { vers = v })) y r u state k)
unfolding IsInStep sync_state_of
local_versions-IsInStep local v y r u state n k h = state_from-vers local v y _ ∙ h

module _ (y : Option SyncMarker) (r : VersionsOnServer) (state : SyncState) (n : ℕ) where
  pub completes :
      (local : LocalVersions) (u : Option UploadInfo) (local_version version : ℕ)
      → IsInStep (obj (some local) y r u state n)
      → Keeps (record_upload_completion (obj (some local) y r u state n) local_version version)
  unfolding record_upload_completion
  completes local none local_version version h = h
  completes local (some (removal up)) local_version version h = h
  completes local (some (new_version up)) local_version version h =
      if_cases Keeps (up.upload_version == version)
        (λ _. by_outcome (uploaded_remote r.vers version up.base_version)) (λ _. h)
    where
      by_outcome :
          (o : Outcome StatusError VersionsInfo)
          → Keeps (
              when_set (obj (some local) y r (some (new_version up)) state n) o (λ v.
                complete_upload
                  (obj (some local) y r (some (new_version up)) state n)
                  local_version
                  version
                  up.base_version
                  v))
      by_outcome (ok v) =
          update_and_save-IsInStep (obj (some local) y r (some (new_version up)) state n) _
      by_outcome (throws e) = h

  pub sets_local :
      (local : LocalVersions) (u : Option UploadInfo) (version : ℕ) (base : Option ℕ)
      → IsInStep (obj (some local) y r u state n)
      → Keeps (set_local_current_version (obj (some local) y r u state n) version base)
  unfolding set_local_current_version
  sets_local local u version base h = by_outcome (set_current_version_in local.vers version base)
    where
      by_outcome :
          (o : Outcome VersionsError VersionsInfo)
          → Keeps (set_local (obj (some local) y r u state n) local o)
      by_outcome (ok v) = update_and_save-IsInStep (obj (some local) y r u state n) _
      by_outcome (throws e) = h

  pub absorbs :
      (l : Option LocalVersions) (u : Option UploadInfo) (version base : ℕ)
      → IsInStep (obj l y r u state n)
      → Keeps (absorb_local_version_base (obj l y r u state n) version base)
  unfolding absorb_local_version_base save
  absorbs none u version base h = h
  absorbs (some local) u version base h =
      if_cases Keeps (get local.vers.diff_to_base version =?= some base)
        (λ _. by_outcome (with_lower_base local.vers version base)) (λ _. h)
    where
      by_outcome :
          (o : Outcome VersionsError VersionsInfo)
          → Keeps (absorb_into (obj (some local) y r u state n) local base o)
      by_outcome (ok v) =
          local_versions-IsInStep local (rm_non_arch_versions_in v base) y r u state n (suc n) h
      by_outcome (throws e) = h

adopts : (s : ObjStatus) (version : Option ℕ) → IsInStep s → Keeps (adopt s version)
adopts s version h = by_version version
  where
    current_adopted : (c : Option ℕ) → Keeps (adopt_current c s)
    current_adopted none = h
    current_adopted (some c) = if_cases Keeps (c == 0) (λ _. h) (λ _. update_and_save-IsInStep s _)

    by_version : (o : Option ℕ) → Keeps (adopt s o)
    by_version none = current_adopted s.status.remote.vers.current
    by_version (some v) =
        if_cases Keeps (v == 0) (λ _. current_adopted s.status.remote.vers.current)
          (λ _.
            if_cases Keeps (is_among_remote s.status v) (λ _. update_and_save-IsInStep s _)
              (λ _. h))

pub adopts_in_state :
    (state : SyncState) (s : ObjStatus) (version : Option ℕ)
    → IsInStep s
    → Keeps (adopt_in_state state s version)
adopts_in_state in_sync s version h = h
adopts_in_state unsynced s version h = adopts s version h
adopts_in_state behind s version h = adopts s version h
adopts_in_state conflicting s version h =
    if_cases Keeps (truthy version) (λ _. adopts s version h) (λ _. h)
