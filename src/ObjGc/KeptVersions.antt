-- ===== src/ObjGc/KeptVersions.antt =====
-- Which versions identifyNonGarbage keeps, for ts-code/core/storage/synced/obj-files-gc.ts.
use core_3nweb_client_lib.Base.{
  ℕ, zero, suc, ◌+◌, ◌≡◌, refl, sym, ap, arith, Bool, true, false, ◌&&◌, Option, none, some, List,
  [], ◌∷◌, includes, Option-cases, inl, inr, ok, ok_injective, if_cases, if◌then◌else◌, ◌==◌, ◌=?=◌,
  truthy,
}
use core_3nweb_client_lib.Base.NumMap.{NumMap, get}
use core_3nweb_client_lib.Versions.{
  VersionsInfo, add_with_bases_loop, add_with_bases_to, non_garbage_versions_in,
}
use core_3nweb_client_lib.StatusInfo.{LocalVersions, ObjStatusInfo, SyncMarker}
use core_3nweb_client_lib.StatusInfo.Kept.{
  NonGarbageVersions, NonGarbage, non_garbage_with_max_ver, with_uploaded, with_synced,
  identify_non_garbage, local_version_of,
}
use core_3nweb_client_lib.ObjGc.{number, can_gc}
use core_3nweb_client_lib.ObjGc.Objects.{is_empty, no_local_kept, keeps_nothing}

includes-cons_of : (x y : ℕ) (xs : List ℕ) → includes xs x ≡ true → includes (y ∷ xs) x ≡ true
includes-cons_of x y xs h = ground arith

-- What is in a set stays there when versions and their bases are added.
includes-add_with_bases_loop :
    (fuel : ℕ) (set : List ℕ) (o : Option ℕ) (links : NumMap) (x : ℕ)
    → includes set x ≡ true
    → includes (add_with_bases_loop fuel set o links) x ≡ true
unfolding add_with_bases_loop
includes-add_with_bases_loop zero set o links x h = h
includes-add_with_bases_loop (suc f) set none links x h = h
includes-add_with_bases_loop (suc f) set (some ver) links x h =
    if_cases (λ (t : List ℕ). includes t x ≡ true) (includes set ver) (λ _. h)
      (λ _.
        includes-add_with_bases_loop f (ver ∷ set) (get links ver) links x
          (includes-cons_of x ver set h))

includes-add_with_bases_to :
    (set : List ℕ) (o : Option ℕ) (v : VersionsInfo) (x : ℕ)
    → includes set x ≡ true
    → includes (add_with_bases_to set o v) x ≡ true
unfolding add_with_bases_to
includes-add_with_bases_to set none v x h = h
includes-add_with_bases_to set (some ver) v x h =
    includes-add_with_bases_loop (ver + 2) set (some ver) v.diff_to_base x h

includes-with_uploaded :
    (local : LocalVersions) (ver : Option ℕ) (x : ℕ)
    → includes (non_garbage_versions_in local.vers) x ≡ true
    → includes (with_uploaded local ver).non_garbage x ≡ true
unfolding with_uploaded non_garbage_with_max_ver
includes-with_uploaded local ver x h =
    if_cases (λ (k : NonGarbageVersions). includes k.non_garbage x ≡ true)
      (local.vers.current =?= ver) (λ _. h)
      (λ _. includes-add_with_bases_to (non_garbage_versions_in local.vers) ver local.vers x h)

pub includes-with_synced :
    (synced : Option SyncMarker) (remote : VersionsInfo) (x : ℕ)
    → includes (non_garbage_versions_in remote) x ≡ true
    → includes (with_synced synced remote).non_garbage x ≡ true
unfolding with_synced non_garbage_with_max_ver
includes-with_synced none remote x h = h
includes-with_synced (some synced) remote x h = elim (Option-cases synced.version) [
  | inl e ↦ rw e h
  | inr (ver, e) ↦ rw e (
      if_cases IsKept (ver == 0) (λ _. h)
        (λ _.
          if_cases IsKept (truthy synced.base)
            (λ _. includes-add_with_bases_to (marked ver) synced.base remote x (in_marked ver))
            (λ _. in_marked ver)))
]
  where
    IsKept : NonGarbageVersions → Type 0
    IsKept k = includes k.non_garbage x ≡ true

    marked : ℕ → List ℕ
    marked ver =
        if includes (non_garbage_versions_in remote) ver
        then non_garbage_versions_in remote
        else ver ∷ non_garbage_versions_in remote

    in_marked : (ver : ℕ) → includes (marked ver) x ≡ true
    in_marked ver =
        if_cases (λ (t : List ℕ). includes t x ≡ true)
          (includes (non_garbage_versions_in remote) ver) (λ _. h)
          (λ _. includes-cons_of x ver (non_garbage_versions_in remote) h)

-- What is known of the versions that are kept, when it is known at all.
pub identify-local :
    (s : ObjStatusInfo) (local : LocalVersions) (kept : NonGarbage) (x : ℕ)
    → s.local ≡ some local
    → identify_non_garbage s ≡ ok kept
    → includes (non_garbage_versions_in local.vers) x ≡ true
    → (k : NonGarbageVersions) × (kept.local_kept ≡ some k) × (includes k.non_garbage x ≡ true)
unfolding identify_non_garbage non_garbage_with_max_ver
identify-local s local kept x e h m = elim (Option-cases s.upload) [
  | inl u ↦ (
    non_garbage_with_max_ver local.vers,
    sym (ap (λ (k : NonGarbage). k.local_kept) (ok_injective (rw (u, e) at h))),
    m,
  )
  | inr (up, u) ↦ (
    with_uploaded local (local_version_of up),
    sym (ap (λ (k : NonGarbage). k.local_kept) (ok_injective (rw (u, e) at h))),
    includes-with_uploaded local (local_version_of up) x m,
  )
]

pub identify-remote :
    (s : ObjStatusInfo) (kept : NonGarbage)
    → identify_non_garbage s ≡ ok kept
    → kept.remote_kept ≡ with_synced s.synced s.remote.vers
unfolding identify_non_garbage
identify-remote s kept h = elim (Option-cases s.upload) [
  | inl u ↦ sym (ap (λ (k : NonGarbage). k.remote_kept) (ok_injective (rw u at h)))
  | inr (up, u) ↦ elim (Option-cases s.local) [
    | inl e ↦ absurd (cc (rw (u, e) at h))
    | inr (local, e) ↦ sym (ap (λ (k : NonGarbage). k.remote_kept) (ok_injective (rw (u, e) at h)))
  ]
]

pub spared_when_kept :
    (kept : NonGarbageVersions) (x : ℕ)
    → includes kept.non_garbage x ≡ true
    → can_gc (number x) kept ≡ false
unfolding can_gc
spared_when_kept kept x m = rw m refl

pub member_not_empty : (xs : List ℕ) (x : ℕ) → includes xs x ≡ true → is_empty xs ≡ false
member_not_empty [] x m = cc m
member_not_empty (y ∷ ys) x m = refl

right_false : (a : Bool) → (a && false) ≡ false
right_false true = refl
right_false false = refl

pub keeps_nothing-local :
    (kept : NonGarbage) (k : NonGarbageVersions) (x : ℕ)
    → kept.local_kept ≡ some k
    → includes k.non_garbage x ≡ true
    → keeps_nothing kept ≡ false
unfolding keeps_nothing
keeps_nothing-local kept k x e m = rw (e, member_not_empty k.non_garbage x m) refl

pub keeps_nothing-remote :
    (kept : NonGarbage) (x : ℕ)
    → includes kept.remote_kept.non_garbage x ≡ true
    → keeps_nothing kept ≡ false
unfolding keeps_nothing
keeps_nothing-remote kept x m =
    rw (member_not_empty kept.remote_kept.non_garbage x m)
      (right_false (no_local_kept kept.local_kept))
