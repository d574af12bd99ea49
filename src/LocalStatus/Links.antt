-- ===== src/LocalStatus/Links.antt =====
-- What the methods of `ObjStatus` of ts-code/core/storage/local/obj-status.ts keep.
use core_3nweb_client_lib.Base.{
  ℕ, ◌≡◌, ◌∙◌, refl, sym, ap, subst, arith, List, true, false, ◌||◌, ◌==◌, ==_refl, Option, none,
  some, ok, includes, inr, ◌<◌, Bool,
}
use core_3nweb_client_lib.Versions.{
  VersionsInfo, is_archived_in, set_current_version_in, add_archived,
}
use core_3nweb_client_lib.Versions.Links.{IsLinked, start}
use core_3nweb_client_lib.Versions.States.{
  Reachable-IsLinked, fresh, IsFresh, Step, Step-IsLinked, sets, removes_current, removes_archived,
  archives,
}
use core_3nweb_client_lib.Versions.Garbage.{non_garbage_versions_in-Reach}
use core_3nweb_client_lib.Versions.Archived.{add_archived-is_archived_in}
use core_3nweb_client_lib.Versions.Current.{rm_current_version_in-archived}
use core_3nweb_client_lib.LocalStatus.{
  LocalStatus, make_new_local, set_new_current_version, remove_local_current_version,
  remove_archived_version, archive_local_current_version, non_garbage_of_local,
}

-- A method that changes the status. A version is set where it is new and its base is free.
pub data LocalStep (s : LocalStatus) : LocalStatus → Type 0 where
  sets_new :
      (version : ℕ) (base : Option ℕ) (v : VersionsInfo)
      → IsFresh s.versions version base
      → set_current_version_in s.versions version base ≡ ok v
      → LocalStep s (set_new_current_version s version base).0
  removes : LocalStep s (remove_local_current_version s)
  removes_one : (version : ℕ) → LocalStep s (remove_archived_version s version)
  archives_current :
      (c : ℕ)
      → s.versions.current ≡ some c
      → 0 < c
      → LocalStep s (archive_local_current_version s).0

pub data LocalReachable : LocalStatus → Type 0 where
  made : LocalReachable make_new_local
  then : {s s' : LocalStatus} → LocalReachable s → LocalStep s s' → LocalReachable s'

archived_status :
    (s : LocalStatus) (c : ℕ)
    → s.versions.current ≡ some c
    → 0 < c
    → (archive_local_current_version s).0.versions ≡ (add_archived s.versions c).0
unfolding archive_local_current_version
archived_status s c e above = rw (e, not_zero c above) refl
  where
    not_zero : (c : ℕ) → 0 < c → (c == 0) ≡ false
    not_zero c above = ground arith

-- A step of the status is a step of its versions info.
LocalStep-Step : {s s' : LocalStatus} → LocalStep s s' → Step s.versions s'.versions
unfolding set_new_current_version remove_local_current_version remove_archived_version
    archive_local_current_version
LocalStep-Step {s} (sets_new version base v fr e) =
    rw (set_new_current_version, e) (sets version base fr e)
LocalStep-Step {s} removes = removes_current
LocalStep-Step {s} (removes_one version) = removes_archived version
LocalStep-Step {s} (archives_current c e above) =
    subst (Step s.versions) (sym (archived_status s c e above)) (archives c)

-- In every state that the methods lead to, the links between versions and their bases are
-- consistent.
pub LocalReachable-IsLinked : {s : LocalStatus} → LocalReachable s → IsLinked s.versions
unfolding make_new_local
LocalReachable-IsLinked made = Reachable-IsLinked fresh
LocalReachable-IsLinked (then r step) =
    Step-IsLinked (LocalStep-Step step) (LocalReachable-IsLinked r)

kept_archived :
    (s : LocalStatus) (c : ℕ)
    → s.versions.current ≡ some c
    → 0 < c
    → is_archived_in (remove_local_current_version (archive_local_current_version s).0).versions c
      ≡ true
unfolding remove_local_current_version
kept_archived s c e above =
    let archived = (archive_local_current_version s).0.versions in
    ap (λ (vs : Option (List ℕ)). elim vs [ none ↦ false | some ws ↦ includes ws c ])
      (rm_current_version_in-archived archived)
    ∙ ap (λ (v : VersionsInfo). is_archived_in v c) (archived_status s c e above)
    ∙ add_archived-is_archived_in s.versions c c
    ∙ ap (◌||◌ (is_archived_in s.versions c)) (==_refl c)
    ∙ or_true (is_archived_in s.versions c)
  where
    or_true : (b : Bool) → (b || true) ≡ true
    or_true true = refl
    or_true false = refl

remove_local-IsLinked :
    (s : LocalStatus) → IsLinked s.versions → IsLinked (remove_local_current_version s).versions
remove_local-IsLinked s linked = Step-IsLinked (LocalStep-Step {s = s} removes) linked

-- A version that was current when it was archived is spared by the garbage collection after the
-- current version has been removed, where links between versions are consistent.
pub non_garbage_of_local-remove_local_current_version :
    (s : LocalStatus) (c : ℕ)
    → IsLinked s.versions
    → s.versions.current ≡ some c
    → 0 < c
    → includes
        (non_garbage_of_local
          (remove_local_current_version (archive_local_current_version s).0)).non_garbage
        c
      ≡ true
unfolding non_garbage_of_local
non_garbage_of_local-remove_local_current_version s c linked e above =
    let s1 = (archive_local_current_version s).0 in
    let linked1 = Step-IsLinked (LocalStep-Step (archives_current c e above)) linked in
    let linked2 = remove_local-IsLinked s1 linked1 in
    (non_garbage_versions_in-Reach (remove_local_current_version s1).versions c linked2).1
      (c, inr (kept_archived s c e above), start)
