-- ===== src/Versions.antt =====
-- ts-code/core/storage/common/obj-info-file.ts: the versions of an object that are kept in a
-- folder, with the links between a version that is stored as a difference and its base.
pub mod Rounds
pub mod Links
pub mod States
pub mod Garbage
pub mod Current
pub mod Archived
mod Runs
use core_3nweb_client_lib.Base.{
  ℕ, zero, suc, ◌+◌, ◌/◌, ◌%◌, ◌≡◌, List, [], ◌∷◌, ◌++◌, length, Bool, true, false, ◌&&◌, includes,
  leb, ltb, ◌==◌, if◌then◌else◌, Option, none, some, truthy, Outcome, ok, throws, ◌>>=◌,
}
use core_3nweb_client_lib.Base.NumMap.{NumMap, get, put, remove, size}

pub record VersionsInfo : Type 0 where
  pub current : Option ℕ
  pub archived : Option (List ℕ)
  pub base_to_diff : NumMap
  pub diff_to_base : NumMap

pub data VersionsError : Type 0 where
  diff_not_above_base : VersionsError

-- `versions.archived?.includes(version)`
abbrev pub is_archived_in : VersionsInfo → ℕ → Bool
is_archived_in v ver = elim v.archived [ none ↦ false | some vs ↦ includes vs ver ]

unfoldable pub add_base_to_diff_link_in_vers_info :
    VersionsInfo → ℕ → ℕ → Outcome VersionsError VersionsInfo
add_base_to_diff_link_in_vers_info v diff_ver base_ver =
    if leb diff_ver base_ver
    then throws diff_not_above_base
    else ok (record v {
      diff_to_base = put v.diff_to_base diff_ver base_ver;
      base_to_diff = put v.base_to_diff base_ver diff_ver;
    })

unfoldable pub is_version_in : ℕ → VersionsInfo → Bool
is_version_in version v = elim v.current [
  | none ↦ is_archived_in v version
  | some c ↦ if c == version then true else is_archived_in v version
]

-- The links between `ver` and `base` are deleted.
abbrev pub unlink : VersionsInfo → ℕ → ℕ → VersionsInfo
unlink v ver base = record v {
  diff_to_base = remove v.diff_to_base ver;
  base_to_diff = remove v.base_to_diff base;
}

-- `rmNonArchVersionsIn` with `fuel` rounds at most.
pub rm_non_arch_loop : ℕ → VersionsInfo → ℕ → VersionsInfo
rm_non_arch_loop zero v ver = v
rm_non_arch_loop (suc fuel) v ver = elim (get v.diff_to_base ver) [
  | none ↦ v
  | some base ↦
      let rest = rm_non_arch_loop fuel (unlink v ver base) base in
      if is_archived_in v ver
      then v
      else if truthy (get v.base_to_diff ver)
      then v
      else if base == 0
      then v
      else rest
]

-- Each round but the last deletes a link, so one more than there are links is enough.
unfoldable pub rm_non_arch_versions_in : VersionsInfo → ℕ → VersionsInfo
unfolding rm_non_arch_loop
rm_non_arch_versions_in v ver = rm_non_arch_loop (suc (size v.diff_to_base)) v ver

-- `archived.splice(archived.indexOf(ver), 1)`
pub rm_first : List ℕ → ℕ → List ℕ
rm_first [] ver = []
rm_first (x ∷ xs) ver = if x == ver then xs else x ∷ rm_first xs ver

abbrev none_if_empty : List ℕ → Option (List ℕ)
none_if_empty [] = none
none_if_empty (x ∷ xs) = some (x ∷ xs)

rm_from_list : Option (List ℕ) → VersionsInfo → ℕ → VersionsInfo × Bool
unfolding rm_first
rm_from_list none v ver = (v, false)
rm_from_list (some vs) v ver =
    if includes vs ver
    then (
      rm_non_arch_versions_in (record v { archived = none_if_empty (rm_first vs ver) }) ver,
      true,
    )
    else (v, false)

unfoldable pub rm_arch_version_from : VersionsInfo → ℕ → VersionsInfo × Bool
unfolding rm_from_list
rm_arch_version_from v ver = rm_from_list v.archived v ver

-- `rmNonArchVersionsIn` of the current version, if there is one.
rm_links_of : Option ℕ → VersionsInfo → VersionsInfo
rm_links_of none v = v
rm_links_of (some c) v = rm_non_arch_versions_in v c

abbrev rm_current_links : VersionsInfo → VersionsInfo
rm_current_links v = rm_links_of v.current v

unfoldable pub set_current_version_in :
    VersionsInfo → ℕ → Option ℕ → Outcome VersionsError VersionsInfo
unfolding add_base_to_diff_link_in_vers_info rm_links_of
set_current_version_in v version none = ok (record (rm_current_links v) { current = some version })
set_current_version_in v version (some base_ver) = do
  v' ← add_base_to_diff_link_in_vers_info v version base_ver
  ok (record (rm_current_links v') { current = some version })

unfoldable pub rm_current_version_in : VersionsInfo → VersionsInfo × Option ℕ
unfolding rm_links_of
rm_current_version_in v = (record (rm_current_links v) { current = none }, v.current)

-- The decimal digits of a number, highest first. A number has fewer digits than its successor
-- counts.
unfoldable pub decimal_from : ℕ → ℕ → List ℕ → List ℕ
decimal_from zero n acc = acc
decimal_from (suc fuel) n acc =
    let more = decimal_from fuel (n / 10) (n % 10 ∷ acc) in if ltb n 10 then n ∷ acc else more

pub text_lt : List ℕ → List ℕ → Bool
text_lt xs [] = false
text_lt [] (y ∷ ys) = true
text_lt (x ∷ xs) (y ∷ ys) = if ltb x y then true else x == y && text_lt xs ys

-- `archived.sort()`: with no comparison given, JavaScript sorts numbers by their decimal text.
pub insert_by_text : ℕ → List ℕ → List ℕ
unfolding decimal_from text_lt
insert_by_text x [] = x ∷ []
insert_by_text x (y ∷ ys) =
    if text_lt (decimal_from (suc x) x []) (decimal_from (suc y) y [])
    then x ∷ y ∷ ys
    else y ∷ insert_by_text x ys

pub sort_by_text : List ℕ → List ℕ → List ℕ
unfolding insert_by_text
sort_by_text sorted [] = sorted
sort_by_text sorted (x ∷ xs) = sort_by_text (insert_by_text x sorted) xs

add_to_list : Option (List ℕ) → VersionsInfo → ℕ → VersionsInfo × Bool
unfolding sort_by_text
add_to_list none v version = (record v { archived = some (sort_by_text [] (version ∷ [])) }, true)
add_to_list (some vs) v version =
    if includes vs version
    then (v, false)
    else (record v { archived = some (sort_by_text [] (vs ++ (version ∷ []))) }, true)

unfoldable pub add_archived : VersionsInfo → ℕ → VersionsInfo × Bool
unfolding add_to_list
add_archived v version = add_to_list v.archived v version

-- `isEmptyVersions`: the answer, and the versions info, in which an empty list gives way to
-- `undefined`.
unfoldable pub is_empty_versions : VersionsInfo → VersionsInfo × Bool
is_empty_versions v = if truthy v.current then (v, false) else elim v.archived [
  | none ↦ (v, true)
  | some vs ↦ elim vs [ [] ↦ (record v { archived = none }, true) | x ∷ xs ↦ (v, false) ]
]

-- `addWithBasesTo` with `fuel` rounds at most. A set is a list, the latest member first.
unfoldable pub add_with_bases_loop : ℕ → List ℕ → Option ℕ → NumMap → List ℕ
add_with_bases_loop zero set ver links = set
add_with_bases_loop (suc fuel) set none links = set
add_with_bases_loop (suc fuel) set (some ver) links =
    let rest = add_with_bases_loop fuel (ver ∷ set) (get links ver) links in
    if includes set ver then set else rest

-- A base is smaller than what is built on it, so `ver + 2` rounds are enough.
unfoldable pub add_with_bases_to : List ℕ → Option ℕ → VersionsInfo → List ℕ
unfolding add_with_bases_loop
add_with_bases_to set none v = set
add_with_bases_to set (some ver) v = add_with_bases_loop (ver + 2) set (some ver) v.diff_to_base

pub add_all_with_bases_to : List ℕ → List ℕ → VersionsInfo → List ℕ
add_all_with_bases_to set [] v = set
add_all_with_bases_to set (a ∷ as') v =
    add_all_with_bases_to (add_with_bases_to set (some a) v) as' v

unfoldable pub non_garbage_versions_in : VersionsInfo → List ℕ
unfolding add_with_bases_to add_all_with_bases_to
non_garbage_versions_in v =
    let from_current = add_with_bases_to [] v.current v in
    elim v.archived [ none ↦ from_current | some vs ↦ add_all_with_bases_to from_current vs v ]
