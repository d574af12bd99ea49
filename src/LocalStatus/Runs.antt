-- ===== src/LocalStatus/Runs.antt =====
-- Runs of ts-code/core/storage/local/obj-status.ts, and its theorems at concrete inputs.
use core_3nweb_client_lib.Base.{◌≡◌, refl, [], ◌∷◌, none, some}
use core_3nweb_client_lib.Base.NumMap.{get, put, remove, size}
use core_3nweb_client_lib.Versions.{
  set_current_version_in, rm_non_arch_versions_in, add_archived, rm_current_version_in,
  non_garbage_versions_in,
}
use core_3nweb_client_lib.LocalStatus.{
  LocalStatus, make_new_local, set_new_current_version, archive_local_current_version,
  remove_local_current_version, non_garbage_of_local,
}
use core_3nweb_client_lib.LocalStatus.Links.{LocalReachable, made, then, sets_new}

-- Version 1 is set, and version 2 on it.
abbrev with_two : LocalStatus
with_two = (set_new_current_version (set_new_current_version make_new_local 1 none).0 2 (some 1)).0

with_two-LocalReachable : LocalReachable with_two
unfolding make_new_local set_new_current_version set_current_version_in rm_non_arch_versions_in get
    put remove size
with_two-LocalReachable =
    then (then made (sets_new 1 none _ tt refl)) (sets_new 2 (some 1) _ (refl, refl) refl)

with_two_current : with_two.versions.current ≡ some 2
unfolding make_new_local set_new_current_version set_current_version_in rm_non_arch_versions_in get
    put remove size
with_two_current = refl

-- The removed version that was archived, and its base, are spared.
spared :
    (non_garbage_of_local
      (remove_local_current_version (archive_local_current_version with_two).0)).non_garbage
    ≡ 1 ∷ 2 ∷ []
unfolding make_new_local set_new_current_version set_current_version_in rm_non_arch_versions_in get
    put remove size archive_local_current_version remove_local_current_version non_garbage_of_local
    add_archived rm_current_version_in non_garbage_versions_in
spared = refl
