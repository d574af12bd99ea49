-- ===== src/ObjGc/Garbage.antt =====
-- Which versions are garbage, and whose files are gone after ts-code/core/storage/synced/obj-files-gc.ts
-- has removed it.
use core_3nweb_client_lib.Base.{
  ℕ, ◌<◌, ◌≡◌, refl, sym, arith, Bool, true, false, not, ◌&&◌, Option, none, some, List, ◌↔◌, ◌⊎◌,
  inl, inr, includes,
}
use core_3nweb_client_lib.StatusInfo.Kept.{NonGarbageVersions, NonGarbage}
use core_3nweb_client_lib.ObjGc.{
  Text, can_gc, local_ver_path, remote_ver_path, remove_garbage_files, below_max,
}
use core_3nweb_client_lib.ObjGc.Removed.{
  has_file, removes_version, can_remove-local_ver_path, can_remove-remote_ver_path,
  has_file-remove_garbage_files,
}

-- There is no `gcMaxVer` but 0, or the version is below it.
abbrev pub IsBelowMax : Option ℕ → ℕ → Type 0
IsBelowMax none version = Unit
IsBelowMax (some top) version = (top ≡ 0) ⊎ (version < top)

-- The version is not kept, and is not `gcMaxVer` or a later one; without information on versions
-- every one is garbage.
abbrev pub IsGarbage : Option NonGarbageVersions → ℕ → Type 0
IsGarbage none version = Unit
IsGarbage (some kept) version =
    (includes kept.non_garbage version ≡ false) × IsBelowMax kept.gc_max_ver version

below_max_iff :
    (top : Option ℕ) (version : ℕ) → (below_max version top ≡ true) ↔ IsBelowMax top version
below_max_iff none version = ((λ h. tt), (λ h. refl))
below_max_iff (some top) version =
    (ground arith, (λ h. elim h [ inl e ↦ ground (arith, e) | inr lt ↦ ground (arith, lt) ]))

both_iff :
    (is_kept below : Bool) (Below : Type 0)
    → (below ≡ true → Below)
    → (Below → below ≡ true)
    → ((not is_kept && below) ≡ true) ↔ ((is_kept ≡ false) × Below)
both_iff true below Below to from = ((λ h. absurd (cc h)), (λ (k, b). absurd (cc k)))
both_iff false below Below to from = ((λ h. (refl, to h)), (λ (k, b). from b))

removes_version_iff :
    (kept : Option NonGarbageVersions) (version : ℕ)
    → (removes_version kept version ≡ true) ↔ IsGarbage kept version
unfolding can_gc
removes_version_iff none version = ((λ h. tt), (λ h. refl))
removes_version_iff (some kept) version =
    let (below, is_below) = below_max_iff kept.gc_max_ver version in
    both_iff (includes kept.non_garbage version) (below_max version kept.gc_max_ver) _ below
      is_below

-- A file is gone exactly when it was not there, or is removed and could be unlinked.
gone_iff :
    (there removed unlinked left : Bool) (Garbage : Type 0)
    → left ≡ (there && not (removed && unlinked))
    → (removed ≡ true) ↔ Garbage
    → (left ≡ false) ↔ ((there ≡ false) ⊎ (Garbage × (unlinked ≡ true)))
gone_iff false removed unlinked left Garbage e (to, from) = ((λ h. inl refl), (λ h. e))
gone_iff true true true left Garbage e (to, from) = ((λ h. inr (to refl, refl)), (λ h. e))
gone_iff true true false left Garbage e (to, from) = (
  (λ h. absurd (cc (e, h))),
  (λ h. elim h [ inl k ↦ absurd (cc k) | inr (k, u) ↦ absurd (cc u) ]),
)
gone_iff true false unlinked left Garbage e (to, from) = (
  (λ h. absurd (cc (e, h))),
  (λ h. elim h [ inl k ↦ absurd (cc k) | inr (k, u) ↦ absurd (cc (from k)) ]),
)

-- After the removal of garbage the file of a local version, and that of a version from the server,
-- is gone exactly when it was not there, or could be unlinked and its version is garbage: it is not
-- among the versions to keep, and is below `gcMaxVer`, if there is a `gcMaxVer` but 0. All local
-- versions are garbage where nothing is known of local versions.
pub remove_garbage_files-ver_paths :
    (unlinks : Text → Bool) (kept : NonGarbage) (fs : List Text) (version : ℕ)
    → ((has_file (remove_garbage_files unlinks kept fs) (local_ver_path version) ≡ false) ↔ (
        (has_file fs (local_ver_path version) ≡ false)
        ⊎ (IsGarbage kept.local_kept version × (unlinks (local_ver_path version) ≡ true))))
      × ((has_file (remove_garbage_files unlinks kept fs) (remote_ver_path version) ≡ false) ↔ (
          (has_file fs (remote_ver_path version) ≡ false)
          ⊎ (IsGarbage (some kept.remote_kept) version
              × (unlinks (remote_ver_path version) ≡ true))))
remove_garbage_files-ver_paths unlinks kept fs version = (
  gone_iff (has_file fs (local_ver_path version)) (removes_version kept.local_kept version) _ _ _
      (rw (sym (can_remove-local_ver_path kept version))
        (has_file-remove_garbage_files unlinks kept fs (local_ver_path version)))
      (removes_version_iff kept.local_kept version),
  gone_iff (has_file fs (remote_ver_path version)) (removes_version (some kept.remote_kept) version)
      _ _ _
      (rw (sym (can_remove-remote_ver_path kept version))
        (has_file-remove_garbage_files unlinks kept fs (remote_ver_path version)))
      (removes_version_iff (some kept.remote_kept) version),
)
