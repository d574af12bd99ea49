-- ===== src/Versions/States.antt =====
-- The states that the operations of obj-info-file.ts lead to, as a relation between them.
use core_3nweb_client_lib.Base.{
  ℕ, ◌≡◌, ◌≢◌, sym, ap, ◌∙◌, subst, arith, Bool, List, [], includes, Option, none, some, leb, ok,
  >>=-eq-ok, if_cases, Bool-cases, inl, inr,
}
use core_3nweb_client_lib.Base.NumMap.{get, put, get-put, get-empty}
use core_3nweb_client_lib.Versions.{
  VersionsInfo, add_base_to_diff_link_in_vers_info, rm_current_version_in, set_current_version_in,
  rm_arch_version_from, rm_current_links, rm_links_of, rm_from_list, add_to_list, add_archived,
}
use core_3nweb_client_lib.Versions.Links.{IsLinked, some_same, rm_non_arch_versions_in-IsLinked}

-- The version has no base yet, and nothing is built on the base.
abbrev pub IsFresh : VersionsInfo → ℕ → Option ℕ → Type 0
IsFresh v version none = Unit
IsFresh v version (some base) =
    (get v.diff_to_base version ≡ none) × (get v.base_to_diff base ≡ none)

pub data Step (v : VersionsInfo) : VersionsInfo → Type 0 where
  sets :
      (version : ℕ) (base : Option ℕ) {w : VersionsInfo}
      → IsFresh v version base
      → set_current_version_in v version base ≡ ok w
      → Step v w
  links :
      (version base : ℕ) {w : VersionsInfo}
      → IsFresh v version (some base)
      → add_base_to_diff_link_in_vers_info v version base ≡ ok w
      → Step v w
  removes_current : Step v (rm_current_version_in v).0
  removes_archived : (version : ℕ) → Step v (rm_arch_version_from v version).0
  archives : (version : ℕ) → Step v (add_archived v version).0

pub data Reachable : VersionsInfo → Type 0 where
  fresh :
      Reachable (record { current = none; archived = none; base_to_diff = []; diff_to_base = [] })
  after : {v w : VersionsInfo} → Reachable v → Step v w → Reachable w

add_link-IsLinked :
    (v w : VersionsInfo) (version base : ℕ)
    → IsLinked v
    → IsFresh v version (some base)
    → add_base_to_diff_link_in_vers_info v version base ≡ ok w
    → IsLinked w
unfolding add_base_to_diff_link_in_vers_info
add_link-IsLinked v w version base h (new_version, free_base) e =
    elim (Bool-cases (leb version base)) [
      | inl le ↦ absurd (ground (arith, le))
      | inr gt ↦
          let same : record v {
            diff_to_base = put v.diff_to_base version base;
            base_to_diff = put v.base_to_diff base version;
          }
              ≡ w =
            ground (arith, gt) in
          subst IsLinked same (record {
            down = λ d b p. ground (arith, get-put v.diff_to_base version base d, h.down d b);
            back = λ d b p. ground (
              arith,
              get-put v.diff_to_base version base d,
              get-put v.base_to_diff base version b,
              h.back d b,
            );
            forth = λ b d p. ground (
              arith,
              get-put v.diff_to_base version base d,
              get-put v.base_to_diff base version b,
              h.forth b d,
            );
          })
    ]

rm_links_of-IsLinked : (c : Option ℕ) (v : VersionsInfo) → IsLinked v → IsLinked (rm_links_of c v)
unfolding rm_links_of
rm_links_of-IsLinked none v h = h
rm_links_of-IsLinked (some c) v h = rm_non_arch_versions_in-IsLinked v c h

-- The other two fields play no part.
with_fields-IsLinked :
    (v : VersionsInfo) (c : Option ℕ) (vs : Option (List ℕ))
    → IsLinked v
    → IsLinked (record v { current = c; archived = vs })
with_fields-IsLinked v c vs h = record { down = h.down; back = h.back; forth = h.forth }

set_current-IsLinked :
    (v w : VersionsInfo) (version : ℕ) (base : Option ℕ)
    → IsLinked v
    → IsFresh v version base
    → set_current_version_in v version base ≡ ok w
    → IsLinked w
unfolding set_current_version_in
set_current-IsLinked v w version none h new_version e =
    let u = rm_current_links v in
    let same : record u { current = some version } ≡ w = cc in
    subst IsLinked same
      (with_fields-IsLinked u (some version) u.archived (rm_links_of-IsLinked v.current v h))
set_current-IsLinked v w version (some base) h new_version e =
    let (v', linked, e') = >>=-eq-ok (add_base_to_diff_link_in_vers_info v version base) _ e in
    let u = rm_current_links v' in
    let same : record u { current = some version } ≡ w = cc e' in
    subst IsLinked same (
      with_fields-IsLinked u (some version) u.archived (
        rm_links_of-IsLinked v'.current v'
          (add_link-IsLinked v v' version base h new_version linked)))

rm_from_list-IsLinked :
    (vs : Option (List ℕ)) (v : VersionsInfo) (ver : ℕ)
    → IsLinked v
    → IsLinked (rm_from_list vs v ver).0
unfolding rm_from_list
rm_from_list-IsLinked none v ver h = h
rm_from_list-IsLinked (some vs) v ver h =
    if_cases (λ (r : VersionsInfo × Bool). IsLinked r.0) (includes vs ver)
      (λ _. rm_non_arch_versions_in-IsLinked _ ver (with_fields-IsLinked v v.current _ h)) (λ _. h)

add_to_list-IsLinked :
    (vs : Option (List ℕ)) (v : VersionsInfo) (ver : ℕ)
    → IsLinked v
    → IsLinked (add_to_list vs v ver).0
unfolding add_to_list
add_to_list-IsLinked none v ver h = with_fields-IsLinked v v.current _ h
add_to_list-IsLinked (some vs) v ver h =
    if_cases (λ (r : VersionsInfo × Bool). IsLinked r.0) (includes vs ver) (λ _. h)
      (λ _. with_fields-IsLinked v v.current _ h)

-- Every operation keeps the two maps of links inverse to one another, with every base smaller
-- than the version on it, where links are added only to a version without a base and to a base that
-- nothing is built on.
pub Step-IsLinked : {v w : VersionsInfo} → Step v w → IsLinked v → IsLinked w
unfolding rm_current_version_in rm_arch_version_from add_archived
Step-IsLinked {v} {w} (sets version base fr e) h = set_current-IsLinked v w version base h fr e
Step-IsLinked {v} {w} (links version base fr e) h = add_link-IsLinked v w version base h fr e
Step-IsLinked {v} removes_current h =
    let u = rm_current_links v in
    with_fields-IsLinked u none u.archived (rm_links_of-IsLinked v.current v h)
Step-IsLinked {v} (removes_archived version) h = rm_from_list-IsLinked v.archived v version h
Step-IsLinked {v} (archives version) h = add_to_list-IsLinked v.archived v version h

-- Links are consistent in every state that is reached from an empty versions info by setting of
-- current versions, adding of links, removal of the current and of archived versions and archiving,
-- provided that `setCurrentVersionIn` with a base, and `addBaseToDiffLinkInVersInfo`, are called only
-- for a version that has no base yet and a base that nothing is built on. `absorbLocalVersionBase`
-- does not see to that, so what it does is not covered.
pub Reachable-IsLinked : {v : VersionsInfo} → Reachable v → IsLinked v
Reachable-IsLinked fresh = record {
  down = λ d b p. cc (get-empty d);
  back = λ d b p. cc (get-empty d);
  forth = λ b d p. cc (get-empty b);
}
Reachable-IsLinked (after r s) = Step-IsLinked s (Reachable-IsLinked r)

-- A second link to a base is never consistent.
pub add_link-breaks :
    (v w : VersionsInfo) (version base other : ℕ)
    → get v.diff_to_base other ≡ some base
    → version ≢ other
    → add_base_to_diff_link_in_vers_info v version base ≡ ok w
    → ¬ IsLinked w
unfolding add_base_to_diff_link_in_vers_info
add_link-breaks v w version base other on_base differs e linked =
    elim (Bool-cases (leb version base)) [
      | inl le ↦ absurd (ground (arith, le))
      | inr gt ↦
          let same : record v {
            diff_to_base = put v.diff_to_base version base;
            base_to_diff = put v.base_to_diff base version;
          }
              ≡ w =
            ground (arith, gt) in
          let other_stays : get w.diff_to_base other ≡ some base =
            ap (λ (u : VersionsInfo). get u.diff_to_base other) (sym same)
            ∙ ground (arith, get-put v.diff_to_base version base other) in
          let taken : get w.base_to_diff base ≡ some version =
            ap (λ (u : VersionsInfo). get u.base_to_diff base) (sym same)
            ∙ ground (arith, get-put v.base_to_diff base version base) in
          differs (some_same (sym taken ∙ linked.back other base other_stays))
    ]
