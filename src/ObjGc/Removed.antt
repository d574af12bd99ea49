-- ===== src/ObjGc/Removed.antt =====
-- Which files of a folder are garbage, of ts-code/core/storage/synced/obj-files-gc.ts.
use core_3nweb_client_lib.Base.{
  ℕ, zero, suc, ◌<◌, ◌≡◌, refl, sym, ap, ◌∙◌, arith, Bool, true, false, not, ◌&&◌, ◌||◌, Option,
  none, some, List, [], ◌∷◌, if_cases, ◌==◌,
}
use core_3nweb_client_lib.StatusInfo.Kept.{NonGarbageVersions, NonGarbage}
use core_3nweb_client_lib.ObjGc.{
  Text, number, can_gc, can_gc_local, can_gc_upload, can_gc_upload_header, can_remove, digits_on,
  local_ver_path, remote_ver_path, upload_header_path, unsynced_ext, remote_ext, upload_ext,
  file_of, same_text, remove_garbage_files, files_left, local_can_gc,
}
use core_3nweb_client_lib.ObjGc.Names.{
  parse_int-file_of, parse_int-version_text, ends_with-file_of, without_ext-file_of,
  remote_not_unsynced, upload_not_unsynced, upload_not_remote, same_text_eq,
}

abbrev pub has_file : List Text → Text → Bool
has_file [] f = false
has_file (g ∷ fs) f = same_text g f || has_file fs f

abbrev pub holds : Option (List Text) → Text → Bool
holds none f = false
holds (some fs) f = has_file fs f

-- What `canRemove` answers, told from the version in the file's name.
abbrev pub removes_version : Option NonGarbageVersions → ℕ → Bool
removes_version none version = true
removes_version (some kept) version = can_gc (number version) kept

pub can_remove-local_ver_path :
    (kept : NonGarbage) (version : ℕ)
    → can_remove (local_ver_path version) kept ≡ removes_version kept.local_kept version
unfolding can_remove local_ver_path digits_on can_gc_local
can_remove-local_ver_path kept version =
    rw (ends_with-file_of version unsynced_ext) (by_local kept.local_kept)
  where
    by_local :
        (local : Option NonGarbageVersions)
        → can_gc_local (file_of version unsynced_ext) local ≡ removes_version local version
    by_local none = refl
    by_local (some l) =
        rw (without_ext-file_of version unsynced_ext) (rw (parse_int-version_text version) refl)

pub can_remove-remote_ver_path :
    (kept : NonGarbage) (version : ℕ)
    → can_remove (remote_ver_path version) kept ≡ can_gc (number version) kept.remote_kept
unfolding can_remove remote_ver_path digits_on
can_remove-remote_ver_path kept version =
    rw
      (
        remote_not_unsynced version,
        ends_with-file_of version remote_ext,
        without_ext-file_of version remote_ext,
        parse_int-version_text version,
      )
      refl

-- The header of an upload of a version after the 0th is removed exactly while the upload of the
-- same version goes on.
pub can_remove-upload_header_path :
    (kept : NonGarbage) (version : ℕ)
    → 0 < version
    → can_remove (upload_header_path version) kept
      ≡ elim kept.upload_kept [ none ↦ false | some v ↦ version == v ]
unfolding can_remove upload_header_path digits_on can_gc_upload can_gc_upload_header
can_remove-upload_header_path kept version above =
    rw (upload_not_unsynced version, upload_not_remote version) (by_upload kept.upload_kept)
  where
    by_upload :
        (upload : Option ℕ)
        → can_gc_upload (file_of version upload_ext) upload
          ≡ elim upload [ none ↦ false | some v ↦ version == v ]
    by_upload none = refl
    by_upload (some zero) = ground arith
    by_upload (some (suc v)) =
        rw
          (
            ends_with-file_of version upload_ext,
            without_ext-file_of version upload_ext,
            parse_int-version_text version,
          )
          refl

gone_file :
    (here there gone left : Bool)
    → (here ≡ true → true ≡ gone)
    → left ≡ (there && not gone)
    → left ≡ ((here || there) && not gone)
gone_file true true gone left h e = e
gone_file true false gone left h e = e ∙ ap not (h refl)
gone_file false there gone left h e = e

left_file :
    (here there gone left : Bool)
    → (here ≡ true → false ≡ gone)
    → left ≡ (there && not gone)
    → (here || left) ≡ ((here || there) && not gone)
left_file true there gone left h e = rw (sym (h refl)) refl
left_file false there gone left h e = e

-- A file is left exactly when it was there and is not removed.
pub has_file-files_left :
    (removed : Text → Bool) (fs : List Text) (f : Text)
    → has_file (files_left removed fs) f ≡ (has_file fs f && not (removed f))
unfolding files_left
has_file-files_left removed [] f = refl
has_file-files_left removed (g ∷ fs) f =
    if_cases (λ (t : List Text). has_file t f ≡ (has_file (g ∷ fs) f && not (removed f)))
      (removed g)
      (λ e.
        gone_file (same_text g f) (has_file fs f) (removed f) _
          (λ same. sym e ∙ ap removed (same_text_eq g f same)) (has_file-files_left removed fs f))
      (λ e.
        left_file (same_text g f) (has_file fs f) (removed f) _
          (λ same. sym e ∙ ap removed (same_text_eq g f same)) (has_file-files_left removed fs f))

pub has_file-remove_garbage_files :
    (unlinks : Text → Bool) (kept : NonGarbage) (fs : List Text) (f : Text)
    → has_file (remove_garbage_files unlinks kept fs) f
      ≡ (has_file fs f && not (can_remove f kept && unlinks f))
unfolding remove_garbage_files
has_file-remove_garbage_files unlinks kept fs f =
    has_file-files_left (λ g. can_remove g kept && unlinks g) fs f

-- In a local storage the version is read of the whole name.
pub local_can_gc-file_of :
    (version : ℕ) (kept : NonGarbageVersions)
    → local_can_gc (file_of version remote_ext) kept ≡ removes_version (some kept) version
unfolding local_can_gc
local_can_gc-file_of version kept = rw (parse_int-file_of version remote_ext) refl
