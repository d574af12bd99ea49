-- ===== src/ObjGc/LocalObjects.antt =====
-- Garbage collection in an object of a local storage, of
-- ts-code/core/storage/local/obj-files-gc.ts.
use core_3nweb_client_lib.Base.{
  ℕ, ◌<◌, ◌≡◌, refl, ap, ◌∙◌, Bool, true, false, not, ◌&&◌, Option, none, some, List, includes,
  if_cases, if◌then◌else◌,
}
use core_3nweb_client_lib.Versions.Links.{IsLinked}
use core_3nweb_client_lib.StatusInfo.Kept.{NonGarbageVersions}
use core_3nweb_client_lib.LocalStatus.{
  LocalStatus, non_garbage_of_local, archive_local_current_version, remove_local_current_version,
}
use core_3nweb_client_lib.LocalStatus.Links.{non_garbage_of_local-remove_local_current_version}
use core_3nweb_client_lib.ObjGc.{
  Text, local_can_gc, digits_on, file_of, remote_ext, local_remove_garbage_files,
}
use core_3nweb_client_lib.ObjGc.Removed.{has_file, holds, has_file-files_left, local_can_gc-file_of}
use core_3nweb_client_lib.ObjGc.Objects.{Disk, has_id, is_empty}
use core_3nweb_client_lib.ObjGc.KeptVersions.{member_not_empty, spared_when_kept}

pub record LocalObj : Type 0 where
  pub obj_id : Text
  pub is_cached : Bool
  pub status : LocalStatus
  pub folder : Option (List Text)

-- The file of a version in a local object's folder.
unfoldable pub obj_ver_path : ℕ → Text
unfolding digits_on
obj_ver_path version = file_of version remote_ext

abbrev clean_local_folder : Disk → NonGarbageVersions → Option (List Text) → Option (List Text)
clean_local_folder disk kept none = none
clean_local_folder disk kept (some fs) = some (local_remove_garbage_files disk.unlinks kept fs)

-- The condition of `checkAndRemoveWholeObjFolder`.
abbrev is_removable_local : LocalObj → NonGarbageVersions → Bool
is_removable_local obj kept =
    has_id obj.obj_id && (obj.status.is_archived && is_empty kept.non_garbage)

-- `collectIn`, whose errors `objCollecting` ignores.
pub collect_in_local : Disk → LocalObj → LocalObj
unfolding non_garbage_of_local local_remove_garbage_files
collect_in_local disk obj =
    let kept = non_garbage_of_local obj.status in
    if is_removable_local obj kept
    then record obj { is_cached = false; folder = if disk.removes_folder then none else obj.folder }
    else record obj { folder = clean_local_folder disk kept obj.folder }

not_whole : (a b : Bool) → (a && (b && false)) ≡ false
not_whole true true = refl
not_whole true false = refl
not_whole false b = refl

has_file-local_remove :
    (unlinks : Text → Bool) (kept : NonGarbageVersions) (fs : List Text) (f : Text)
    → has_file (local_remove_garbage_files unlinks kept fs) f
      ≡ (has_file fs f && not (local_can_gc f kept && unlinks f))
unfolding local_remove_garbage_files
has_file-local_remove unlinks kept fs f =
    has_file-files_left (λ g. local_can_gc g kept && unlinks g) fs f

-- The file of a version that is kept is left.
collect_in_local-keeps :
    (disk : Disk) (obj : LocalObj) (x : ℕ)
    → includes (non_garbage_of_local obj.status).non_garbage x ≡ true
    → holds obj.folder (obj_ver_path x) ≡ true
    → holds (collect_in_local disk obj).folder (obj_ver_path x) ≡ true
unfolding collect_in_local obj_ver_path digits_on
collect_in_local-keeps disk obj x m there =
    if_cases (λ (o : LocalObj). holds o.folder (obj_ver_path x) ≡ true)
      (is_removable_local obj kept) (λ whole. absurd (cc (whole, partial)))
      (λ _. in_folder obj.folder there)
  where
    kept : NonGarbageVersions
    kept = non_garbage_of_local obj.status

    partial : is_removable_local obj kept ≡ false
    partial =
        ap (λ (b : Bool). has_id obj.obj_id && (obj.status.is_archived && b))
          (member_not_empty kept.non_garbage x m)
        ∙ not_whole (has_id obj.obj_id) obj.status.is_archived

    in_folder :
        (folder : Option (List Text))
        → holds folder (obj_ver_path x) ≡ true
        → holds (clean_local_folder disk kept folder) (obj_ver_path x) ≡ true
    in_folder none there' = there'
    in_folder (some fs) there' =
        has_file-local_remove disk.unlinks kept fs (obj_ver_path x)
        ∙ rw (there', local_can_gc-file_of x kept, spared_when_kept kept x m) refl

-- In a local storage, after the current version is archived, and the object is removed, garbage
-- collection leaves the file of that version, on consistent links and for a version after the 0th.
pub collect_in_local-remove_local_current_version :
    (disk : Disk) (obj : LocalObj) (c : ℕ)
    → IsLinked obj.status.versions
    → obj.status.versions.current ≡ some c
    → 0 < c
    → holds obj.folder (obj_ver_path c) ≡ true
    → holds
        (collect_in_local disk (record obj {
          status = remove_local_current_version (archive_local_current_version obj.status).0;
        })).folder
        (obj_ver_path c)
      ≡ true
collect_in_local-remove_local_current_version disk obj c linked e above there =
    collect_in_local-keeps disk _ c
      (non_garbage_of_local-remove_local_current_version obj.status c linked e above) there
