-- ===== src/ObjStatus/Local.antt =====
-- The methods of `ObjStatus` of ts-code/core/storage/synced/obj-status.ts from
-- `recordStatusFromServer` on: what the server tells, local versions, and what is told of versions.
use core_3nweb_client_lib.Base.{
  ℕ, zero, suc, Bool, true, false, not, ◌&&◌, ◌||◌, Option, none, some, List, [], ◌∷◌, ltb, ◌==◌,
  ◌=?=◌, truthy, if◌then◌else◌, Outcome, ok, throws, ◌>>=◌,
}
use core_3nweb_client_lib.Base.NumMap.{get}
use core_3nweb_client_lib.Versions.{
  VersionsInfo, VersionsError, set_current_version_in, rm_current_version_in,
  rm_non_arch_versions_in, add_archived, add_base_to_diff_link_in_vers_info, is_version_in,
  is_archived_in,
}
use core_3nweb_client_lib.StatusInfo.{
  SyncState, in_sync, unsynced, conflicting, LocalVersions, VersionsOnServer, SyncMarker,
  new_version, removal, ObjStatusInfo, no_versions, is_remote_empty, is_current, StatusError,
  version_not_found, conflict, version_mismatch, assertion_failed, version_not_above_base,
  remove_arch_versions_not_in_list, add_arch_versions_from_list, SyncVersionsBranch,
  versions_to_branch, UploadingState, upload_in_status,
}
use core_3nweb_client_lib.ObjStatus.{
  ObjStatus, Done, update_and_save, save, local_is_archived, synced_is_archived, local_current,
  synced_version, is_in_sync,
}

abbrev pub remote_below : Option ℕ → Option ℕ → Bool
remote_below (some a) (some b) = ltb a b
remote_below _ _ = false

-- The part of `recordStatusFromServer` that looks at the current version, and whether it changed.
unfoldable pub current_from_server : VersionsOnServer → Option ℕ → VersionsOnServer × Bool
current_from_server remote current =
    if truthy current
    then (if truthy remote.vers.current
        then (if remote_below remote.vers.current current
            then (
              record remote {
                vers = record (rm_current_version_in remote.vers).0 { current = current };
              },
              true,
            )
            else (remote, false))
        else (record remote { vers = record remote.vers { current = current } }, true))
    else if truthy remote.vers.current
    then (record { vers = (rm_current_version_in remote.vers).0; is_archived = true }, true)
    else (remote, false)

unfoldable pub record_status_from_server : ObjStatus → Option (List ℕ) → Option ℕ → ObjStatus
unfolding current_from_server
record_status_from_server s archived current =
    let (remote, changed_current) = current_from_server s.status.remote current in
    let (v1, rm_archived) = remove_arch_versions_not_in_list remote.vers archived in
    let (v2, added_archived) = add_arch_versions_from_list v1 archived in
    let info : ObjStatusInfo = record s.status { remote = record remote { vers = v2 } } in
    if rm_archived || added_archived || changed_current
    then update_and_save s info
    else record s { status = info }

pub record BaseOfVersion : Type 0 where
  pub local_bases : Option (List ℕ)
  pub synced_base : Option ℕ

-- The bases from `base` down that the loop of `baseOfLocalVersion` collects, highest first. A base
-- is below what is built on it, so `base + 1` rounds are enough.
pub local_bases_from : ℕ → VersionsInfo → ℕ → List ℕ
local_bases_from zero v base = []
local_bases_from (suc fuel) v base = elim (get v.diff_to_base base) [
  | none ↦ base ∷ []
  | some lower ↦
      let rest = local_bases_from fuel v lower in if lower == 0 then base ∷ [] else base ∷ rest
]

-- The last of the collected bases is taken away when it is on the server.
pub split_bases : List ℕ → VersionsInfo → List ℕ × Option ℕ
split_bases [] remote = ([], none)
split_bases (b ∷ []) remote = if is_version_in b remote then ([], some b) else (b ∷ [], none)
split_bases (b ∷ c ∷ bs) remote = let (rest, last) = split_bases (c ∷ bs) remote in (b ∷ rest, last)

abbrev base_trace : List ℕ × Option ℕ → BaseOfVersion
base_trace (bases, last) = record { local_bases = some bases; synced_base = last }

unfoldable pub base_of_local_version :
    ObjStatusInfo → ℕ → Outcome StatusError (Option BaseOfVersion)
unfolding local_bases_from split_bases
base_of_local_version info version = elim info.local [
  | none ↦ throws assertion_failed
  | some local ↦
      if is_version_in version local.vers
      then (elim (get local.vers.diff_to_base version) [
        | none ↦ ok none
        | some base ↦
            if base == 0
            then ok none
            else if is_version_in base info.remote.vers
            then ok (some (record { local_bases = none; synced_base = some base }))
            else ok (
                some (
                  base_trace
                    (split_bases (local_bases_from (suc base) local.vers base) info.remote.vers)))
      ])
      else throws assertion_failed
]

abbrev pub local_or_new : Option LocalVersions → LocalVersions
local_or_new none = record { vers = no_versions; is_archived = false }
local_or_new (some local) = local

-- An empty local record stays when the version is refused.
abbrev pub set_local :
    ObjStatus → LocalVersions → Outcome VersionsError VersionsInfo → Done (Unit {0})
set_local s local (ok v) =
    (update_and_save s (record s.status { local = some (record local { vers = v }) }), ok tt)
set_local s local (throws e) =
    (record s { status = record s.status { local = some local } }, throws version_not_above_base)

unfoldable pub set_local_current_version : ObjStatus → ℕ → Option ℕ → Done (Unit {0})
unfolding update_and_save
set_local_current_version s version base =
    let local = local_or_new s.status.local in
    set_local s local (set_current_version_in local.vers version base)

pub record ListedVersions : Type 0 where
  pub listed_current : Option ℕ
  pub listed_archived : Option (List ℕ)

abbrev below_synced : ObjStatusInfo → Option (List ℕ)
below_synced info =
    (versions_to_branch info.remote (synced_version info.synced) false).branch_archived

-- For a state with a local version, and for one that shows the synced version.
abbrev list_with_local : ObjStatusInfo → Outcome StatusError ListedVersions
list_with_local info = elim info.local [
  | none ↦ throws assertion_failed
  | some local ↦ ok (record {
    listed_current = local.vers.current;
    listed_archived = if truthy (synced_version info.synced) then below_synced info else none;
  })
]

abbrev list_synced : ObjStatusInfo → Outcome StatusError ListedVersions
list_synced info = elim info.synced [
  | none ↦ throws assertion_failed
  | some synced ↦ ok (record {
    listed_current = synced.version;
    listed_archived =
        if truthy synced.version then below_synced info else info.remote.vers.archived;
  })
]

abbrev list_in_state : SyncState → ObjStatusInfo → Outcome StatusError ListedVersions
list_in_state unsynced info = list_with_local info
list_in_state conflicting info = list_with_local info
list_in_state _ info = list_synced info

unfoldable pub list_versions : ObjStatus → Outcome StatusError ListedVersions
list_versions s = list_in_state s.state_indicator s.status

abbrev pub archive_marked : Option ℕ → ObjStatus → Done (Unit {0})
archive_marked none s = (s, throws assertion_failed)
archive_marked (some v) s = if v == 0 then (s, throws assertion_failed) else (
  save s (record s.status {
    remote = record s.status.remote { vers = (add_archived s.status.remote.vers v).0 };
  }),
  ok tt,
)

unfoldable pub archive_current_version : ObjStatus → Done (Unit {0})
unfolding save
archive_current_version s = archive_marked (synced_version s.status.synced) s

abbrev pub with_lower_base : VersionsInfo → ℕ → ℕ → Outcome VersionsError VersionsInfo
with_lower_base v version base = elim (get v.diff_to_base base) [
  | none ↦ ok v
  | some lower ↦ if lower == 0 then ok v else add_base_to_diff_link_in_vers_info v version lower
]

abbrev pub absorb_into :
    ObjStatus → LocalVersions → ℕ → Outcome VersionsError VersionsInfo → Done (Unit {0})
absorb_into s local base (throws e) = (s, throws version_not_above_base)
absorb_into s local base (ok v) = (
  save s
      (record s.status { local = some (record local { vers = rm_non_arch_versions_in v base }) }),
  ok tt,
)

abbrev pub absorb_in : Option LocalVersions → ObjStatus → ℕ → ℕ → Done (Unit {0})
absorb_in none s version base = (s, throws assertion_failed)
absorb_in (some local) s version base =
    if get local.vers.diff_to_base version =?= some base
    then absorb_into s local base (with_lower_base local.vers version base)
    else (s, throws assertion_failed)

unfoldable pub absorb_local_version_base : ObjStatus → ℕ → ℕ → Done (Unit {0})
unfolding save
absorb_local_version_base s version base = absorb_in s.status.local s version base

pub record LocalVersion : Type 0 where
  pub local_latest : Option ℕ
  pub local_archived : Bool

pub local_version_from_status : Option LocalVersions → Option LocalVersion
local_version_from_status none = none
local_version_from_status (some local) =
    some (record { local_latest = local.vers.current; local_archived = local.is_archived })

pub record Branches : Type 0 where
  pub remote_branch : Option SyncVersionsBranch
  pub synced_branch : Option SyncVersionsBranch

-- With the remote versions after `isRemoteEmpty`.
abbrev branches_unless_empty : VersionsOnServer × Bool → VersionsOnServer × Branches
branches_unless_empty (remote, true) =
    (remote, record { remote_branch = none; synced_branch = none })
branches_unless_empty (remote, false) = (
  remote,
  record { remote_branch = some (versions_to_branch remote none false); synced_branch = none },
)

pub split_versions_into_branches :
    VersionsOnServer → Option SyncMarker → Outcome StatusError (VersionsOnServer × Branches)
split_versions_into_branches remote none = ok (branches_unless_empty (is_remote_empty remote))
split_versions_into_branches remote (some synced) =
    if is_current synced remote
    then ok (
      remote,
      record { remote_branch = none; synced_branch = some (versions_to_branch remote none false) },
    )
    else if truthy synced.version
    then ok (
      remote,
      record {
        synced_branch = some (versions_to_branch remote synced.version false);
        remote_branch = some (versions_to_branch remote synced.version true);
      },
    )
    else throws assertion_failed

pub record SyncStatus : Type 0 where
  pub state : SyncState
  pub local_side : Option LocalVersion
  pub branches : Branches
  pub uploading : Option UploadingState

unfoldable pub sync_status : ObjStatus → Outcome StatusError (ObjStatusInfo × SyncStatus)
unfolding split_versions_into_branches local_version_from_status
sync_status s = do
  (remote, branches) ← split_versions_into_branches s.status.remote s.status.synced
  ok (
    record s.status { remote = remote },
    record {
      state = s.state_indicator;
      local_side = local_version_from_status s.status.local;
      branches = branches;
      uploading = upload_in_status s.status.upload;
    },
  )

unfoldable pub never_uploaded : ObjStatusInfo → Bool
never_uploaded info =
    not (truthy (synced_version info.synced)) && not (synced_is_archived info.synced)

unfoldable pub version_before_unsynced_removal : ObjStatus → Option ℕ
version_before_unsynced_removal s =
    if not (is_in_sync s.state_indicator) && local_is_archived s.status.local
    then (elim s.status.upload [
      | none ↦ none
      | some up ↦ elim up [ new_version n ↦ none | removal r ↦ r.local_version ]
    ])
    else none

abbrev pub adopted : ObjStatus → ℕ → ObjStatus
adopted s version = update_and_save s (record s.status {
  synced = some (record {
    version = some version;
    is_archived = false;
    base = get s.status.remote.vers.diff_to_base version;
  });
  local = none;
})

pub is_among_remote : ObjStatusInfo → ℕ → Bool
is_among_remote info version =
    info.remote.vers.current =?= some version || is_archived_in info.remote.vers version

abbrev pub adopt_current : Option ℕ → ObjStatus → Done (Unit {0})
adopt_current none s = (s, throws version_mismatch)
adopt_current (some c) s = if c == 0 then (s, throws version_mismatch) else (adopted s c, ok tt)

-- `adoptRemoteVersion` when no state forbids it.
abbrev pub adopt : ObjStatus → Option ℕ → Done (Unit {0})
adopt s none = adopt_current s.status.remote.vers.current s
adopt s (some v) =
    if v == 0
    then adopt_current s.status.remote.vers.current s
    else if is_among_remote s.status v
    then (adopted s v, ok tt)
    else (s, throws version_not_found)

abbrev pub adopt_in_state : SyncState → ObjStatus → Option ℕ → Done (Unit {0})
adopt_in_state in_sync s version = (s, ok tt)
adopt_in_state conflicting s version =
    if truthy version then adopt s version else (s, throws conflict)
adopt_in_state _ s version = adopt s version

unfoldable pub adopt_remote_version : ObjStatus → Option ℕ → Done (Unit {0})
unfolding is_among_remote update_and_save
adopt_remote_version s version = adopt_in_state s.state_indicator s version

unfoldable pub is_local_only_version : ObjStatusInfo → ℕ → Bool
is_local_only_version info version = local_current info.local =?= some version
