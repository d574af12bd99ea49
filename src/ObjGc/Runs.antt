-- ===== src/ObjGc/Runs.antt =====
-- Runs of the garbage collection of objects, and its theorems at concrete inputs.
use core_3nweb_client_lib.Base.{
  ◌≡◌, refl, arith, inl, List, ◌++◌, ◌↔◌, ◌⊎◌, true, false, [], ◌∷◌, none, some, includes,
}
use core_3nweb_client_lib.Base.NumMap.{get}
use core_3nweb_client_lib.Versions.Links.{IsLinked, start, onto_base}
use core_3nweb_client_lib.StatusInfo.{LocalVersions, unsynced, no_versions, make_obj_status_info}
use core_3nweb_client_lib.StatusInfo.Kept.{NonGarbage}
use core_3nweb_client_lib.ObjGc.{
  Text, nan, negative, number, parse_int, local_ver_path, remote_ver_path, upload_header_path,
  unsynced_ext, remove_garbage_files, can_remove, without_ext, digits_on,
}
use core_3nweb_client_lib.ObjGc.Removed.{has_file, holds, can_remove-upload_header_path}
use core_3nweb_client_lib.ObjGc.Objects.{
  SyncedObj, Disk, collect_in, Gc, idle, collecting, obj_collecting, schedule_collection,
  collect_all,
}
use core_3nweb_client_lib.LocalStatus.{archive_local_current_version, remove_local_current_version}
use core_3nweb_client_lib.ObjGc.LocalObjects.{
  LocalObj, obj_ver_path, collect_in_local, collect_in_local-remove_local_current_version,
}
use core_3nweb_client_lib.ObjGc.Spared.{collect_in-local_ver_path}
use core_3nweb_client_lib.ObjGc.Garbage.{IsGarbage, remove_garbage_files-ver_paths}
use core_3nweb_client_lib.ObjGc.Turns.{waiting, objs_in, collect_all-waiting}
use core_3nweb_client_lib.ObjGc.Requests.{
  GcEvent, asked, began, owed, was_asked, GcReach, made, asks, collects, returns_idle, implies,
  GcReach-owed,
}

-- "12", " 07v", "0x1f", "-3" and "v".
twelve : parse_int (49 ∷ 50 ∷ []) ≡ number 12
unfolding parse_int
twelve = refl

with_blank : parse_int (32 ∷ 48 ∷ 55 ∷ 118 ∷ []) ≡ number 7
unfolding parse_int
with_blank = refl

hexadecimal : parse_int (48 ∷ 120 ∷ 49 ∷ 102 ∷ []) ≡ number 31
unfolding parse_int
hexadecimal = refl

below_zero : parse_int (45 ∷ 51 ∷ []) ≡ negative
unfolding parse_int
below_zero = refl

no_number : parse_int (118 ∷ []) ≡ nan
unfolding parse_int
no_number = refl

-- A name that is the extension alone loses its last character.
extension_alone :
    without_ext unsynced_ext unsynced_ext ≡ 117 ∷ 110 ∷ 115 ∷ 121 ∷ 110 ∷ 99 ∷ 101 ∷ []
extension_alone = refl

-- The upload of version 3 goes on.
abbrev two_kept : NonGarbage
two_kept = record {
  local_kept = some (record { gc_max_ver = some 2; non_garbage = 2 ∷ [] });
  remote_kept = record { gc_max_ver = none; non_garbage = [] };
  upload_kept = some 3;
}

abbrev two_files : List Text
unfolding digits_on
two_files = local_ver_path 1 ∷ local_ver_path 2 ∷ []

remove_garbage_files-ver_paths_example :
    ((has_file (remove_garbage_files (λ f. true) two_kept two_files) (local_ver_path 1) ≡ false) ↔ (
      (has_file two_files (local_ver_path 1) ≡ false)
      ⊎ (IsGarbage two_kept.local_kept 1 × (true ≡ true))))
    × ((has_file (remove_garbage_files (λ f. true) two_kept two_files) (remote_ver_path 1) ≡ false)
        ↔ ((has_file two_files (remote_ver_path 1) ≡ false)
            ⊎ (IsGarbage (some two_kept.remote_kept) 1 × (true ≡ true))))
remove_garbage_files-ver_paths_example =
    remove_garbage_files-ver_paths (λ f. true) two_kept two_files 1

first_removed :
    has_file (remove_garbage_files (λ f. true) two_kept two_files) (local_ver_path 1) ≡ false
unfolding remove_garbage_files local_ver_path
first_removed = refl

can_remove-upload_header_path_example : can_remove (upload_header_path 3) two_kept ≡ true
can_remove-upload_header_path_example = can_remove-upload_header_path two_kept 3 (omega arith)

-- Local version 2 is a difference on version 1.
abbrev local_two : LocalVersions
local_two = record {
  vers = record no_versions {
    current = some 2;
    base_to_diff = (1, 2) ∷ [];
    diff_to_base = (2, 1) ∷ [];
  };
  is_archived = false;
}

local_two-IsLinked : IsLinked local_two.vers
unfolding get
local_two-IsLinked = record {
  down = λ d b p. ground arith;
  back = λ d b p. ground arith;
  forth = λ b d p. ground arith;
}

abbrev obj_two : SyncedObj
unfolding make_obj_status_info digits_on
obj_two = record {
  obj_id = 97 ∷ [];
  is_cached = true;
  status = record {
    status = record make_obj_status_info { local = some local_two };
    state_indicator = unsynced;
    saves = 0;
  };
  folder = some two_files;
}

abbrev disk : Disk
disk = record { unlinks = λ f. true; removes_folder = true }

collect_in-local_ver_path_example : holds (collect_in disk obj_two).folder (local_ver_path 1) ≡ true
unfolding make_obj_status_info get local_ver_path
collect_in-local_ver_path_example =
    collect_in-local_ver_path disk obj_two local_two 2 1 refl local_two-IsLinked (inl refl)
      (onto_base start refl) refl

abbrev obj_local : LocalObj
unfolding digits_on obj_ver_path
obj_local = record {
  obj_id = 97 ∷ [];
  is_cached = true;
  status = record { versions = local_two.vers; is_archived = false; deleted = []; saves = 1 };
  folder = some (obj_ver_path 1 ∷ obj_ver_path 2 ∷ []);
}

collect_in_local-remove_local_current_version_example :
    holds
      (collect_in_local disk (record obj_local {
        status = remove_local_current_version (archive_local_current_version obj_local.status).0;
      })).folder
      (obj_ver_path 2)
    ≡ true
unfolding obj_local
collect_in_local-remove_local_current_version_example =
    collect_in_local-remove_local_current_version disk obj_local 2 local_two-IsLinked refl
      (omega arith) refl

abbrev busy : Gc
busy = record { is_stopped = false; phase = collecting 1; wip = 2 ∷ []; scheduled = 3 ∷ 1 ∷ [] }

collect_all-waiting_example :
    collect_all 5 busy
    ≡ (1 ∷ 2 ∷ 3 ∷ 1 ∷ [], record busy { phase = idle; wip = []; scheduled = [] })
collect_all-waiting_example = collect_all-waiting busy 1 refl

abbrev fresh_gc : Gc
fresh_gc = record { is_stopped = false; phase = idle; wip = []; scheduled = [] }

-- Object 8 is asked for after `objCollecting` has found nothing, and before the action is over.
abbrev forgetful : Gc
unfolding schedule_collection obj_collecting
forgetful =
    let found_nothing = obj_collecting (schedule_collection fresh_gc 7) in
    record (schedule_collection found_nothing 8) { phase = idle }

-- Nothing runs, and the object waits for the next request.
eight_waits : forgetful ≡ record fresh_gc { scheduled = 8 ∷ [] }
unfolding forgetful
eight_waits = refl

abbrev forgetful_past : List GcEvent
forgetful_past = asked 8 ∷ began 7 ∷ asked 7 ∷ []

forgetful-GcReach : GcReach forgetful_past forgetful
unfolding forgetful
forgetful-GcReach = returns_idle (asks (collects (asks made 7 refl) 7 refl) 8 refl) refl

GcReach-owed_example :
    (implies (owed forgetful_past 8) (includes (waiting forgetful) 8) ≡ true)
    × (implies
          (includes (objs_in forgetful.phase ++ waiting forgetful) 8)
          (was_asked forgetful_past 8)
        ≡ true)
GcReach-owed_example = GcReach-owed 8 forgetful-GcReach

-- Object 2 is asked for while it waits in the current set, and is collected twice.
twice :
    (collect_all 5
      (schedule_collection (record fresh_gc { phase = collecting 1; wip = 2 ∷ [] }) 2)).0
    ≡ 1 ∷ 2 ∷ 2 ∷ []
unfolding schedule_collection collect_all obj_collecting
twice = refl
