-- ===== src/ObjGc.antt =====
-- Garbage among the files of an object, of ts-code/core/storage/synced/obj-files-gc.ts and
-- ts-code/core/storage/local/obj-files-gc.ts. A file's name is a list of character codes.
pub mod Names
pub mod Objects
pub mod Removed
pub mod Garbage
pub mod KeptVersions
pub mod Spared
pub mod LocalObjects
pub mod Turns
pub mod Requests
mod Runs
use core_3nweb_client_lib.Base.{
  ℕ, zero, suc, ◌+◌, ◌-◌, ◌*◌, ◌/◌, ◌%◌, Bool, true, false, not, ◌&&◌, ◌||◌, Option, none, some,
  List, [], ◌∷◌, ◌++◌, includes, leb, ltb, ◌==◌, truthy, if◌then◌else◌, length, take, drop,
}
use core_3nweb_client_lib.StatusInfo.Kept.{NonGarbageVersions, NonGarbage}

abbrev pub Text : Type 0
Text = List ℕ

-- What `parseInt` gives. A version is never negative, so negative numbers are not told apart.
pub data ParsedInt : Type 0 where
  nan negative : ParsedInt
  number : ℕ → ParsedInt

abbrev pub is_digit : ℕ → Bool
is_digit c = leb 48 c && leb c 57

-- The blanks of ASCII.
abbrev is_blank : ℕ → Bool
is_blank c = (leb 9 c && leb c 13) || c == 32

-- Digits up to the first other character, after those that gave `acc`.
unfoldable pub decimal_from : ℕ → Text → ℕ
decimal_from acc [] = acc
decimal_from acc (c ∷ cs) =
    let rest = decimal_from (acc * 10 + (c - 48)) cs in if is_digit c then rest else acc

hex_value : ℕ → Option ℕ
hex_value c =
    if is_digit c
    then some (c - 48)
    else if leb 97 c && leb c 102
    then some (c - 87)
    else if leb 65 c && leb c 70
    then some (c - 55)
    else none

hex_from : Option ℕ → Text → Option ℕ
unfolding hex_value
hex_from acc [] = acc
hex_from acc (c ∷ cs) = elim (hex_value c) [
  | none ↦ acc
  | some d ↦ hex_from (elim acc [ none ↦ some d | some a ↦ some (a * 16 + d) ]) cs
]

abbrev is_hex_mark : Text → Bool
is_hex_mark [] = false
is_hex_mark (c ∷ cs) = c == 120 || c == 88

pub unsigned : Text → Option ℕ
unfolding decimal_from hex_from
unsigned [] = none
unsigned (c ∷ cs) =
    if c == 48 && is_hex_mark cs
    then hex_from none (drop 1 cs)
    else if is_digit c
    then some (decimal_from 0 (c ∷ cs))
    else none

abbrev pub plus_sign : Option ℕ → ParsedInt
plus_sign none = nan
plus_sign (some n) = number n

abbrev minus_sign : Option ℕ → ParsedInt
minus_sign none = nan
minus_sign (some zero) = number 0
minus_sign (some (suc n)) = negative

pub parse_int : Text → ParsedInt
unfolding unsigned
parse_int [] = nan
parse_int (c ∷ cs) =
    let rest = parse_int cs in
    if is_blank c
    then rest
    else if c == 45
    then minus_sign (unsigned cs)
    else if c == 43
    then plus_sign (unsigned cs)
    else plus_sign (unsigned (c ∷ cs))

-- `${version}`, with one digit more than there can be.
pub digits_on : ℕ → ℕ → Text
digits_on zero n = []
digits_on (suc fuel) n =
    let front = digits_on fuel (n / 10) in
    if ltb n 10 then (48 + n) ∷ [] else front ++ (48 + n % 10) ∷ []

abbrev pub version_text : ℕ → Text
unfolding digits_on
version_text n = digits_on (suc n) n

-- `UNSYNCED_FILE_NAME_EXT`, `REMOTE_FILE_NAME_EXT` and `UPLOAD_HEADER_FILE_NAME_EXT`.
abbrev pub unsynced_ext : Text
unsynced_ext = 117 ∷ 110 ∷ 115 ∷ 121 ∷ 110 ∷ 99 ∷ 101 ∷ 100 ∷ []

abbrev pub remote_ext : Text
remote_ext = 118 ∷ []

abbrev pub upload_ext : Text
upload_ext = 117 ∷ 112 ∷ 108 ∷ 111 ∷ 97 ∷ 100 ∷ []

abbrev pub file_of : ℕ → Text → Text
unfolding digits_on
file_of version ext = version_text version ++ 46 ∷ ext

-- The names in a folder of the files of a version, of a remote version, and of an upload's header.
pub local_ver_path : ℕ → Text
unfolding digits_on
local_ver_path version = file_of version unsynced_ext

pub remote_ver_path : ℕ → Text
unfolding digits_on
remote_ver_path version = file_of version remote_ext

pub upload_header_path : ℕ → Text
unfolding digits_on
upload_header_path version = file_of version upload_ext

abbrev pub same_text : Text → Text → Bool
same_text [] [] = true
same_text [] (d ∷ ds) = false
same_text (c ∷ cs) [] = false
same_text (c ∷ cs) (d ∷ ds) = c == d && same_text cs ds

abbrev pub ends_with : Text → Text → Bool
ends_with f ext = leb (length ext) (length f) && same_text (drop (length f - length ext) f) ext

-- `f.slice(0, f.length-1-ext.length)`: for a name that is the extension alone, the end is -1, which
-- stands for the place before the last character.
abbrev pub without_ext : Text → Text → Text
without_ext f ext =
    if ltb (length ext) (length f)
    then take (length f - 1 - length ext) f
    else take (length f - 1) f

abbrev pub below_max : ℕ → Option ℕ → Bool
below_max ver none = true
below_max ver (some top) = not (truthy (some top)) || ltb ver top

-- A negative number is in no set of versions, and is below every maximum.
pub can_gc : ParsedInt → NonGarbageVersions → Bool
can_gc nan kept = true
can_gc negative kept = true
can_gc (number ver) kept = not (includes kept.non_garbage ver) && below_max ver kept.gc_max_ver

pub can_gc_upload_header : ParsedInt → ℕ → Bool
can_gc_upload_header nan upload_version = true
can_gc_upload_header negative upload_version = false
can_gc_upload_header (number ver) upload_version = ver == upload_version

pub can_gc_local : Text → Option NonGarbageVersions → Bool
unfolding can_gc parse_int
can_gc_local f none = true
can_gc_local f (some kept) = can_gc (parse_int (without_ext f unsynced_ext)) kept

pub can_gc_upload : Text → Option ℕ → Bool
unfolding can_gc_upload_header parse_int
can_gc_upload f none = false
can_gc_upload f (some zero) = false
can_gc_upload f (some (suc v)) =
    if ends_with f upload_ext
    then can_gc_upload_header (parse_int (without_ext f upload_ext)) (suc v)
    else false

pub can_remove : Text → NonGarbage → Bool
unfolding can_gc_local can_gc can_gc_upload parse_int
can_remove f kept =
    if ends_with f unsynced_ext
    then can_gc_local f kept.local_kept
    else if ends_with f remote_ext
    then can_gc (parse_int (without_ext f remote_ext)) kept.remote_kept
    else can_gc_upload f kept.upload_kept

-- The names that are not removed.
pub files_left : (Text → Bool) → List Text → List Text
files_left removed [] = []
files_left removed (f ∷ fs) =
    let rest = files_left removed fs in if removed f then rest else f ∷ rest

-- What is left of a folder. Errors of `unlink` are ignored, and leave the file.
pub remove_garbage_files : (unlinks : Text → Bool) → NonGarbage → List Text → List Text
unfolding can_remove files_left
remove_garbage_files unlinks kept fs = files_left (λ f. can_remove f kept && unlinks f) fs

abbrev pub local_can_gc_version : ParsedInt → NonGarbageVersions → Bool
local_can_gc_version nan kept = false
local_can_gc_version negative kept = can_gc negative kept
local_can_gc_version (number ver) kept = can_gc (number ver) kept

-- `canGC` for a local object, whose files are named with the version.
pub local_can_gc : Text → NonGarbageVersions → Bool
unfolding can_gc parse_int
local_can_gc f kept = local_can_gc_version (parse_int f) kept

pub local_remove_garbage_files :
    (unlinks : Text → Bool) → NonGarbageVersions → List Text → List Text
unfolding local_can_gc files_left
local_remove_garbage_files unlinks kept fs = files_left (λ f. local_can_gc f kept && unlinks f) fs
