-- ===== src/ObjGc/Spared.antt =====
-- Which files are left by the garbage collection of ts-code/core/storage/synced/obj-files-gc.ts.
use core_3nweb_client_lib.Base.{
  ℕ, ◌≡◌, refl, ap, ◌∙◌, Bool, true, false, not, ◌&&◌, Option, none, some, List, includes, ok,
  throws, Outcome, ◌>>=◌, ok_injective, if◌then◌else◌,
}
use core_3nweb_client_lib.Versions.Links.{IsLinked, Reach}
use core_3nweb_client_lib.Versions.Garbage.{IsRoot, non_garbage_versions_in-Reach}
use core_3nweb_client_lib.StatusInfo.{LocalVersions, StatusError}
use core_3nweb_client_lib.StatusInfo.Kept.{NonGarbageVersions, NonGarbage, identify_non_garbage}
use core_3nweb_client_lib.ObjGc.{Text, can_remove, local_ver_path, remote_ver_path}
use core_3nweb_client_lib.ObjGc.Objects.{
  SyncedObj, Disk, keeps_nothing, is_removable_whole, clean_folder, collect_known, collect_kept,
  collect_in,
}
use core_3nweb_client_lib.ObjGc.Removed.{
  holds, removes_version, can_remove-local_ver_path, can_remove-remote_ver_path,
  has_file-remove_garbage_files,
}
use core_3nweb_client_lib.ObjGc.KeptVersions.{
  identify-local, identify-remote, includes-with_synced, spared_when_kept, keeps_nothing-local,
  keeps_nothing-remote,
}

right_true : (a b : Bool) → (not a && b) ≡ true → b ≡ true
right_true true b h = cc h
right_true false b h = h

answer_keeps_nothing :
    (test : Bool) (needs : Outcome StatusError Bool) (nothing : Bool)
    → (if test then (needs >>= λ n. ok (not n && nothing)) else ok false) ≡ ok true
    → nothing ≡ true
answer_keeps_nothing true (throws e) nothing h = cc h
answer_keeps_nothing true (ok n) nothing h = right_true n nothing (ok_injective h)
answer_keeps_nothing false needs nothing h = cc h

whole_keeps_nothing :
    (obj : SyncedObj) (kept : NonGarbage)
    → is_removable_whole obj kept ≡ ok true
    → keeps_nothing kept ≡ true
unfolding is_removable_whole
whole_keeps_nothing obj kept h = answer_keeps_nothing _ _ _ h

-- A file that is not garbage, in an object that is not removed as a whole.
not_removed :
    (disk : Disk) (obj : SyncedObj) (kept : NonGarbage) (f : Text)
    (answer : Outcome StatusError Bool)
    → is_removable_whole obj kept ≡ answer
    → keeps_nothing kept ≡ false
    → can_remove f kept ≡ false
    → holds obj.folder f ≡ true
    → holds (collect_known disk obj kept answer).folder f ≡ true
unfolding collect_known
not_removed disk obj kept f (throws e) is keeps spared there = there
not_removed disk obj kept f (ok true) is keeps spared there =
    cc (keeps, whole_keeps_nothing obj kept is)
not_removed disk obj kept f (ok false) is keeps spared there = in_folder obj.folder there
  where
    in_folder :
        (folder : Option (List Text))
        → holds folder f ≡ true
        → holds (clean_folder disk kept folder) f ≡ true
    in_folder none there' = there'
    in_folder (some fs) there' =
        has_file-remove_garbage_files disk.unlinks kept fs f ∙ rw (there', spared) refl

-- A file whose version is known to be kept, whatever the identification of garbage answers.
spared_by_answer :
    (disk : Disk) (obj : SyncedObj) (f : Text) (answer : Outcome StatusError NonGarbage)
    → ((kept : NonGarbage)
        → answer ≡ ok kept
        → (keeps_nothing kept ≡ false) × (can_remove f kept ≡ false))
    → holds obj.folder f ≡ true
    → holds (collect_kept disk obj answer).folder f ≡ true
unfolding collect_kept
spared_by_answer disk obj f (throws e) spared there = there
spared_by_answer disk obj f (ok kept) spared there =
    let (keeps, stays) = spared kept refl in
    not_removed disk obj kept f (is_removable_whole obj kept) refl keeps stays there

-- Garbage collection leaves the file of every local version that is the current one, is archived,
-- or is what such a version is built on, directly or through other versions, on consistent links.
-- This holds whatever upload and synced version the status tells of, and for an object that is
-- removed.
pub collect_in-local_ver_path :
    (disk : Disk) (obj : SyncedObj) (local : LocalVersions) (r x : ℕ)
    → obj.status.status.local ≡ some local
    → IsLinked local.vers
    → IsRoot local.vers r
    → Reach local.vers.diff_to_base r x
    → holds obj.folder (local_ver_path x) ≡ true
    → holds (collect_in disk obj).folder (local_ver_path x) ≡ true
unfolding collect_in
collect_in-local_ver_path disk obj local r x e linked root below there =
    spared_by_answer disk obj (local_ver_path x) (identify_non_garbage obj.status.status)
      (λ kept h.
        let (k, is_k, m) =
          identify-local obj.status.status local kept x e h
            ((non_garbage_versions_in-Reach local.vers x linked).1 (r, root, below)) in
        (
          keeps_nothing-local kept k x is_k m,
          can_remove-local_ver_path kept x
              ∙ ap (λ o. removes_version o x) is_k
              ∙ spared_when_kept k x m,
        ))
      there

-- The same of the files of versions that are on the server.
pub collect_in-remote_ver_path :
    (disk : Disk) (obj : SyncedObj) (r x : ℕ)
    → IsLinked obj.status.status.remote.vers
    → IsRoot obj.status.status.remote.vers r
    → Reach obj.status.status.remote.vers.diff_to_base r x
    → holds obj.folder (remote_ver_path x) ≡ true
    → holds (collect_in disk obj).folder (remote_ver_path x) ≡ true
unfolding collect_in
collect_in-remote_ver_path disk obj r x linked root below there =
    let s = obj.status.status in
    spared_by_answer disk obj (remote_ver_path x) (identify_non_garbage s)
      (λ kept h.
        let m : includes kept.remote_kept.non_garbage x ≡ true =
          ap (λ (k : NonGarbageVersions). includes k.non_garbage x) (identify-remote s kept h)
          ∙ includes-with_synced s.synced s.remote.vers x
              ((non_garbage_versions_in-Reach s.remote.vers x linked).1 (r, root, below)) in
        (
          keeps_nothing-remote kept x m,
          can_remove-remote_ver_path kept x ∙ spared_when_kept kept.remote_kept x m,
        ))
      there
