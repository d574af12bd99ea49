-- ===== src/StatusInfo.antt =====
-- The data of ts-code/core/storage/synced/obj-status.ts, and its functions on data alone.
-- `isArchived` is only ever set to true, so `undefined` is `false` here. A text, such as the id of a
-- transaction, is a list of character codes.
pub mod Kept
pub mod Branches
pub mod FromServer
pub mod Bytes
use core_3nweb_client_lib.Base.{
  ℕ, zero, suc, ◌+◌, ◌<◌, Bool, true, false, not, ◌&&◌, ◌||◌, Option, none, some, List, [], ◌∷◌,
  includes, take, drop, ltb, ◌==◌, ◌=?=◌, truthy, if◌then◌else◌, Outcome, ok, throws, ◌>>=◌,
  get_elem?, length,
}
use core_3nweb_client_lib.Base.NumMap.{get}
use core_3nweb_client_lib.Versions.{
  VersionsInfo, VersionsError, is_empty_versions, non_garbage_versions_in, add_with_bases_to,
  rm_arch_version_from, add_archived, is_archived_in,
}
use core_3nweb_client_lib.ObjLayout.Params.{DiffInfo}

pub data SyncState : Type 0 where
  in_sync unsynced behind conflicting : SyncState

-- `vers` is what `LocalVersions` and `VersionsOnServer` have of `VersionsInfo`.
pub record LocalVersions : Type 0 where
  pub vers : VersionsInfo
  pub is_archived : Bool

pub record VersionsOnServer : Type 0 where
  pub vers : VersionsInfo
  pub is_archived : Bool

pub record SyncMarker : Type 0 where
  pub version : Option ℕ
  pub is_archived : Bool
  pub base : Option ℕ

pub record WholeVerOrderedUpload : Type 0 where
  pub create_obj : Bool
  pub header : Option ℕ
  pub segs_left : ℕ
  pub segs_ofs : ℕ
  pub transaction_id : Option (List ℕ)

-- `newSegsLeft` is of offsets and lengths.
pub record DiffVerOrderedUpload : Type 0 where
  pub diff : DiffInfo
  pub header : Option ℕ
  pub new_segs_left : List (ℕ × ℕ)
  pub transaction_id : Option (List ℕ)

pub data NeedUpload : Type 0 where
  ordered_whole : WholeVerOrderedUpload → NeedUpload
  ordered_diff : DiffVerOrderedUpload → NeedUpload

pub record NewVersionUpload : Type 0 where
  pub local_version : ℕ
  pub upload_version : ℕ
  pub base_version : Option ℕ
  pub need_upload : Option NeedUpload

pub record RemovalUpload : Type 0 where
  pub is_postponed : Bool
  pub local_version : Option ℕ

pub data UploadInfo : Type 0 where
  new_version : NewVersionUpload → UploadInfo
  removal : RemovalUpload → UploadInfo

pub record ObjStatusInfo : Type 0 where
  pub local : Option LocalVersions
  pub synced : Option SyncMarker
  pub remote : VersionsOnServer
  pub upload : Option UploadInfo

abbrev pub no_versions : VersionsInfo
no_versions = record { current = none; archived = none; base_to_diff = []; diff_to_base = [] }

-- `makeObjStatusInfo`; the object's id is left out.
unfoldable pub make_obj_status_info : ObjStatusInfo
make_obj_status_info = record {
  local = none;
  synced = none;
  remote = record { vers = no_versions; is_archived = false };
  upload = none;
}

abbrev pub same_flag : Bool → Bool → Bool
same_flag true b = b
same_flag false b = not b

-- `isRemoteEmpty`, with the remote versions, in which an empty list gives way to `undefined`.
unfoldable pub is_remote_empty : VersionsOnServer → VersionsOnServer × Bool
is_remote_empty remote =
    let (v, is_empty) = is_empty_versions remote.vers in
    (record remote { vers = v }, is_empty && not remote.is_archived)

-- The marker agrees with what is on the server.
unfoldable pub is_current : SyncMarker → VersionsOnServer → Bool
is_current synced remote =
    synced.version =?= remote.vers.current && same_flag synced.is_archived remote.is_archived

abbrev pub empty_answer : VersionsOnServer × Bool → VersionsOnServer × Option Bool
empty_answer (remote, true) = (remote, none)
empty_answer (remote, false) = (remote, some false)

unfoldable pub is_synced_current_with_remote :
    Option SyncMarker → VersionsOnServer → VersionsOnServer × Option Bool
unfolding is_current is_remote_empty
is_synced_current_with_remote (some synced) remote = (remote, some (is_current synced remote))
is_synced_current_with_remote none remote = empty_answer (is_remote_empty remote)

abbrev marks_archived : Option SyncMarker → Bool
marks_archived none = false
marks_archived (some synced) = synced.is_archived

-- The state, from whether there is a local version, whether its archiving is synced, and what
-- `isSyncedCurrentWithRemote` answers.
unfoldable pub state_from : Option LocalVersions → Option SyncMarker → Option Bool → SyncState
state_from (some local) synced (some false) = conflicting
state_from (some local) synced _ =
    if local.is_archived && marks_archived synced then in_sync else unsynced
state_from none synced none = unsynced
state_from none synced (some true) = in_sync
state_from none synced (some false) = behind

-- `syncStateOf`, with the status after it.
unfoldable pub sync_state_of : ObjStatusInfo → ObjStatusInfo × SyncState
unfolding is_synced_current_with_remote state_from
sync_state_of s =
    let (remote, answer) = is_synced_current_with_remote s.synced s.remote in
    (record s { remote = remote }, state_from s.local s.synced answer)

-- A read of a field of `undefined` is `no_local`.
pub data StatusError : Type 0 where
  no_local obj_not_found concurrent_update already_uploading version_not_found : StatusError
  no_new_version_upload no_upload versions_dont_match no_removal : StatusError
  conflict version_mismatch assertion_failed version_not_above_base above_remote : StatusError

-- The loop of `removeArchVersionsNotInList`, from index `i` of the list that it removes from.
pub remove_arch_loop : ℕ → ℕ → VersionsInfo → List ℕ → VersionsInfo × Bool
remove_arch_loop zero i v keep = (v, false)
remove_arch_loop (suc fuel) i v keep = elim v.archived [
  | none ↦ (v, false)
  | some vs ↦ elim (get_elem? vs i) [
    | none ↦ (v, false)
    | some x ↦
        let kept = remove_arch_loop fuel (suc i) v keep in
        let removed = remove_arch_loop fuel (suc i) (rm_arch_version_from v x).0 keep in
        if includes keep x then kept else (removed.0, true)
  ]
]

-- As many rounds as there are archived versions are enough.
unfoldable pub remove_arch_versions_not_in_list :
    VersionsInfo → Option (List ℕ) → VersionsInfo × Bool
unfolding remove_arch_loop
remove_arch_versions_not_in_list v keep = elim v.archived [
  | none ↦ (v, false)
  | some vs ↦ remove_arch_loop (length vs) 0 v (elim keep [ none ↦ [] | some ks ↦ ks ])
]

-- `addArchVersionsFromList`, which says of no change that there was one.
pub add_arch_loop : VersionsInfo → List ℕ → VersionsInfo
add_arch_loop v [] = v
add_arch_loop v (x ∷ xs) =
    let added = add_arch_loop (add_archived v x).0 xs in
    let kept = add_arch_loop v xs in if is_archived_in v x then kept else added

unfoldable pub add_arch_versions_from_list : VersionsInfo → Option (List ℕ) → VersionsInfo × Bool
unfolding add_arch_loop
add_arch_versions_from_list v none = (v, false)
add_arch_versions_from_list v (some vs) = (add_arch_loop v vs, false)

pub record SyncVersionsBranch : Type 0 where
  pub branch_archived : Option (List ℕ)
  pub latest : Option ℕ
  pub branch_is_archived : Bool

abbrev pub one_more : Option ℕ → Option ℕ
one_more none = none
one_more (some i) = some (suc i)

-- `archived.findIndex(v => (v > splitVersion))`, where `none` is -1.
unfoldable pub find_index_above : ℕ → List ℕ → Option ℕ
find_index_above split [] = none
find_index_above split (x ∷ xs) =
    if ltb split x then some 0 else one_more (find_index_above split xs)

unfoldable pub split_archived : List ℕ → ℕ → Bool → Option (List ℕ)
unfolding find_index_above
split_archived vs split true = elim (find_index_above split vs) [
  | none ↦ none
  | some i ↦ some (drop i vs)
]
split_archived vs split false = elim (find_index_above split vs) [
  | none ↦ some vs
  | some i ↦ if ltb 0 i then some (take i vs) else some vs
]

abbrev whole_branch : VersionsOnServer → SyncVersionsBranch
whole_branch remote = record {
  branch_archived = remote.vers.archived;
  latest = remote.vers.current;
  branch_is_archived = remote.is_archived;
}

abbrev archived_of_branch : Option (List ℕ) → ℕ → Bool → Option (List ℕ)
archived_of_branch none split above = none
archived_of_branch (some vs) split above = split_archived vs split above

unfoldable pub versions_to_branch : VersionsOnServer → Option ℕ → Bool → SyncVersionsBranch
unfolding split_archived
versions_to_branch remote none above = whole_branch remote
versions_to_branch remote (some split_version) above =
    if split_version == 0 then whole_branch remote else record {
      branch_archived = archived_of_branch remote.vers.archived split_version above;
      latest = if above then remote.vers.current else some split_version;
      branch_is_archived = remote.is_archived;
    }

abbrev pub header_bytes_of : Option ℕ → ℕ
header_bytes_of none = 0
header_bytes_of (some n) = n

-- The loops that add lengths to a count.
unfoldable pub add_lens : ℕ → List (ℕ × ℕ) → ℕ
add_lens count [] = count
add_lens count ((ofs, len) ∷ cs) = add_lens (count + len) cs

pub is_nonempty : Option (List ℕ) → Bool
is_nonempty none = false
is_nonempty (some []) = false
is_nonempty (some (c ∷ cs)) = true

-- For a removal the source gives -1 for both versions, which are `none` here.
pub record UploadingState : Type 0 where
  pub of_local_version : Option ℕ
  pub remote_version : Option ℕ
  pub bytes_left_to_upload : ℕ
  pub upload_started : Bool

pub bytes_left_in : NeedUpload → ℕ
unfolding add_lens
bytes_left_in (ordered_whole need) =
    (if truthy need.header then header_bytes_of need.header else 0) + need.segs_left
bytes_left_in (ordered_diff need) =
    add_lens (if truthy need.header then header_bytes_of need.header else 0) need.new_segs_left

unfoldable pub transaction_of : NeedUpload → Option (List ℕ)
transaction_of (ordered_whole need) = need.transaction_id
transaction_of (ordered_diff need) = need.transaction_id

pub upload_in_status : Option UploadInfo → Option UploadingState
unfolding bytes_left_in transaction_of is_nonempty
upload_in_status none = none
upload_in_status (some (removal up)) = some (record {
  of_local_version = none;
  remote_version = none;
  bytes_left_to_upload = 0;
  upload_started = false;
})
upload_in_status (some (new_version up)) = elim up.need_upload [
  | none ↦ none
  | some need ↦ some (record {
    of_local_version = some up.local_version;
    remote_version = some up.upload_version;
    bytes_left_to_upload = bytes_left_in need;
    upload_started = is_nonempty (transaction_of need);
  })
]

pub count_bytes_in : UploadInfo → ℕ
unfolding add_lens
count_bytes_in (removal up) = 0
count_bytes_in (new_version up) = elim up.need_upload [
  | none ↦ 0
  | some need ↦ elim need [
    | ordered_whole w ↦ w.segs_left + header_bytes_of w.header
    | ordered_diff d ↦ add_lens (header_bytes_of d.header) d.new_segs_left
  ]
]
