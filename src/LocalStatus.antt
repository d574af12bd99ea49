-- ===== src/LocalStatus.antt =====
-- The class `ObjStatus` of ts-code/core/storage/local/obj-status.ts: the status of an object in a
-- local storage. A method gives the status after it, with what it returns or throws. `deleted` is
-- of the versions that were deleted from the cache of version objects, the latest first, and `saves`
-- counts the calls of `saveProc.trigger`.
pub mod Links
mod Runs
use core_3nweb_client_lib.Base.{
  ℕ, suc, Bool, true, false, Option, none, some, List, [], ◌∷◌, ◌==◌, if◌then◌else◌, Outcome, ok,
  throws,
}
use core_3nweb_client_lib.Versions.{
  VersionsInfo, VersionsError, set_current_version_in, rm_current_version_in, rm_arch_version_from,
  add_archived, non_garbage_versions_in,
}
use core_3nweb_client_lib.StatusInfo.{no_versions}
use core_3nweb_client_lib.StatusInfo.Kept.{NonGarbageVersions}

pub record LocalStatus : Type 0 where
  pub versions : VersionsInfo
  pub is_archived : Bool
  pub deleted : List ℕ
  pub saves : ℕ

pub data LocalError : Type 0 where
  no_current version_not_above_base assertion_failed : LocalError

abbrev save_versions : LocalStatus → VersionsInfo → LocalStatus
save_versions s v = record s { versions = v; saves = suc s.saves }

pub make_new_local : LocalStatus
make_new_local =
    save_versions (record { versions = no_versions; is_archived = false; deleted = []; saves = 0 })
      no_versions

unfoldable pub get_current_version_or_throw : LocalStatus → Outcome LocalError ℕ
get_current_version_or_throw s = elim s.versions.current [
  | none ↦ throws no_current
  | some c ↦ ok c
]

unfoldable pub non_garbage_of_local : LocalStatus → NonGarbageVersions
non_garbage_of_local s = record {
  non_garbage = non_garbage_versions_in s.versions;
  gc_max_ver = s.versions.current;
}

pub set_new_current_version :
    LocalStatus → ℕ → Option ℕ → LocalStatus × Outcome LocalError (Unit {0})
set_new_current_version s version base = elim (set_current_version_in s.versions version base) [
  | ok v ↦ (save_versions s v, ok tt)
  | throws e ↦ (s, throws version_not_above_base)
]

abbrev and_deleted : Option ℕ → List ℕ → List ℕ
and_deleted none vs = vs
and_deleted (some v) vs = v ∷ vs

pub remove_local_current_version : LocalStatus → LocalStatus
remove_local_current_version s =
    let (v, current) = rm_current_version_in s.versions in
    record {
      versions = v;
      is_archived = true;
      deleted = and_deleted current s.deleted;
      saves = suc s.saves;
    }

pub remove_archived_version : LocalStatus → ℕ → LocalStatus
remove_archived_version s version = record s {
  versions = (rm_arch_version_from s.versions version).0;
  deleted = version ∷ s.deleted;
  saves = suc s.saves;
}

pub archive_local_current_version : LocalStatus → LocalStatus × Outcome LocalError (Unit {0})
archive_local_current_version s = elim s.versions.current [
  | none ↦ (s, throws assertion_failed)
  | some c ↦
      if c == 0
      then (s, throws assertion_failed)
      else (save_versions s (add_archived s.versions c).0, ok tt)
]

-- The current version, and the archived ones.
unfoldable pub list_local_versions : LocalStatus → Option ℕ × List ℕ
list_local_versions s = (s.versions.current, elim s.versions.archived [ none ↦ [] | some vs ↦ vs ])
