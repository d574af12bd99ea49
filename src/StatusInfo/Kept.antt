-- ===== src/StatusInfo/Kept.antt =====
-- What garbage collection is to keep, of ts-code/core/storage/synced/obj-status.ts.
use core_3nweb_client_lib.Base.{
  ℕ, Option, none, some, List, ◌∷◌, includes, ◌==◌, ◌=?=◌, truthy, if◌then◌else◌, Outcome, ok,
  throws,
}
use core_3nweb_client_lib.Versions.{VersionsInfo, non_garbage_versions_in, add_with_bases_to}
use core_3nweb_client_lib.StatusInfo.{
  LocalVersions, SyncMarker, UploadInfo, new_version, removal, ObjStatusInfo, StatusError, no_local,
}

pub record NonGarbageVersions : Type 0 where
  pub gc_max_ver : Option ℕ
  pub non_garbage : List ℕ

unfoldable pub non_garbage_with_max_ver : VersionsInfo → NonGarbageVersions
non_garbage_with_max_ver v = record {
  gc_max_ver = v.current;
  non_garbage = non_garbage_versions_in v;
}

pub record NonGarbage : Type 0 where
  pub local_kept : Option NonGarbageVersions
  pub remote_kept : NonGarbageVersions
  pub upload_kept : Option ℕ

-- The part that looks at an upload: what is kept of local versions, and the uploaded version.
-- `addWithBasesTo` with no version adds nothing.
pub local_version_of : UploadInfo → Option ℕ
local_version_of (new_version up) = some up.local_version
local_version_of (removal up) = up.local_version

upload_version_of : UploadInfo → Option ℕ
upload_version_of (new_version up) = some up.upload_version
upload_version_of (removal up) = none

unfoldable pub with_uploaded : LocalVersions → Option ℕ → NonGarbageVersions
unfolding non_garbage_with_max_ver
with_uploaded local ver =
    let kept = non_garbage_with_max_ver local.vers in
    if local.vers.current =?= ver
    then kept
    else record kept { non_garbage = add_with_bases_to kept.non_garbage ver local.vers }

unfoldable pub with_synced : Option SyncMarker → VersionsInfo → NonGarbageVersions
unfolding non_garbage_with_max_ver
with_synced none remote = non_garbage_with_max_ver remote
with_synced (some synced) remote =
    let kept = non_garbage_with_max_ver remote in
    elim synced.version [
      | none ↦ kept
      | some ver ↦
          let marked =
            if includes kept.non_garbage ver then kept.non_garbage else ver ∷ kept.non_garbage in
          if ver == 0
          then kept
          else if truthy synced.base
          then record kept { non_garbage = add_with_bases_to marked synced.base remote }
          else record kept { non_garbage = marked }
    ]

unfoldable pub identify_non_garbage : ObjStatusInfo → Outcome StatusError NonGarbage
unfolding with_uploaded with_synced local_version_of upload_version_of
identify_non_garbage s = elim s.upload [
  | none ↦ ok (record {
    local_kept = elim s.local [ none ↦ none | some l ↦ some (non_garbage_with_max_ver l.vers) ];
    remote_kept = with_synced s.synced s.remote.vers;
    upload_kept = none;
  })
  | some up ↦ elim s.local [
    | none ↦ throws no_local
    | some local ↦ ok (record {
      local_kept = some (with_uploaded local (local_version_of up));
      remote_kept = with_synced s.synced s.remote.vers;
      upload_kept = upload_version_of up;
    })
  ]
]
