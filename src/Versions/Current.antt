-- ===== src/Versions/Current.antt =====
-- The current version of the versions info of ts-code/core/storage/common/obj-info-file.ts.
use core_3nweb_client_lib.Base.{
  ℕ, zero, suc, ◌≡◌, ◌<◌, refl, sym, ap, Option, none, some, ok, >>=-eq-ok, ok_injective, gt→leb,
  List, includes, Bool, if_cases, Outcome-cases, inl, inr,
}
use core_3nweb_client_lib.Base.NumMap.{size}
use core_3nweb_client_lib.Versions.Links.{rm_non_arch_cases}
use core_3nweb_client_lib.Versions.{
  VersionsInfo, unlink, rm_non_arch_loop, rm_non_arch_versions_in, set_current_version_in,
  rm_current_version_in, rm_links_of, add_base_to_diff_link_in_vers_info, rm_from_list,
  rm_arch_version_from, add_to_list, add_archived,
}

loop-current :
    (fuel : ℕ) (v : VersionsInfo) (ver : ℕ) → (rm_non_arch_loop fuel v ver).current ≡ v.current
loop-current zero v ver = unfold rm_non_arch_loop in refl
loop-current (suc fuel) v ver =
    rm_non_arch_cases (λ t. t.current ≡ v.current) fuel v ver refl
      (λ base e _ _. loop-current fuel (unlink v ver base) base)

pub rm_non_arch_versions_in-current :
    (v : VersionsInfo) (ver : ℕ) → (rm_non_arch_versions_in v ver).current ≡ v.current
unfolding rm_non_arch_versions_in
rm_non_arch_versions_in-current v ver = loop-current (suc (size v.diff_to_base)) v ver

pub set_current_version_in-current :
    (v v' : VersionsInfo) (ver : ℕ) (base : Option ℕ)
    → set_current_version_in v ver base ≡ ok v'
    → v'.current ≡ some ver
unfolding set_current_version_in
set_current_version_in-current v v' ver none e =
    ap (λ (t : VersionsInfo). t.current) (sym (ok_injective e))
set_current_version_in-current v v' ver (some base) e =
    let (linked, l, e') = >>=-eq-ok (add_base_to_diff_link_in_vers_info v ver base) _ e in
    ap (λ (t : VersionsInfo). t.current) (sym (ok_injective e'))

loop-archived :
    (fuel : ℕ) (v : VersionsInfo) (ver : ℕ) → (rm_non_arch_loop fuel v ver).archived ≡ v.archived
loop-archived zero v ver = unfold rm_non_arch_loop in refl
loop-archived (suc fuel) v ver =
    rm_non_arch_cases (λ t. t.archived ≡ v.archived) fuel v ver refl
      (λ base e _ _. loop-archived fuel (unlink v ver base) base)

links_of-archived : (c : Option ℕ) (v : VersionsInfo) → (rm_links_of c v).archived ≡ v.archived
unfolding rm_links_of rm_non_arch_versions_in
links_of-archived none v = refl
links_of-archived (some c) v = loop-archived (suc (size v.diff_to_base)) v c

pub rm_current_version_in-archived :
    (v : VersionsInfo) → (rm_current_version_in v).0.archived ≡ v.archived
unfolding rm_current_version_in
rm_current_version_in-archived v = links_of-archived v.current v

-- A base that `addBaseToDiffLinkInVersInfo` does not refuse.
abbrev pub IsBaseBelow : Option ℕ → ℕ → Type 0
IsBaseBelow none version = Unit
IsBaseBelow (some base) version = base < version

pub set_current_version_in_returns :
    (v : VersionsInfo) (version : ℕ) (base : Option ℕ)
    → IsBaseBelow base version
    → (w : VersionsInfo) × (set_current_version_in v version base ≡ ok w)
unfolding set_current_version_in add_base_to_diff_link_in_vers_info
set_current_version_in_returns v version none h = (_, refl)
set_current_version_in_returns v version (some base) h =
    elim (Outcome-cases (set_current_version_in v version (some base))) [
      | inl returned ↦ returned
      | inr (thrown, e) ↦ absurd (cc (rw (gt→leb version base h) at e))
    ]

rm_from_list-current :
    (vs : Option (List ℕ)) (v : VersionsInfo) (ver : ℕ)
    → (rm_from_list vs v ver).0.current ≡ v.current
unfolding rm_from_list
rm_from_list-current none v ver = refl
rm_from_list-current (some vs) v ver =
    if_cases (λ (r : VersionsInfo × Bool). r.0.current ≡ v.current) (includes vs ver)
      (λ _. rm_non_arch_versions_in-current _ ver) (λ _. refl)

pub rm_arch_version_from-current :
    (v : VersionsInfo) (ver : ℕ) → (rm_arch_version_from v ver).0.current ≡ v.current
unfolding rm_arch_version_from
rm_arch_version_from-current v ver = rm_from_list-current v.archived v ver

add_to_list-current :
    (vs : Option (List ℕ)) (v : VersionsInfo) (ver : ℕ)
    → (add_to_list vs v ver).0.current ≡ v.current
unfolding add_to_list
add_to_list-current none v ver = refl
add_to_list-current (some vs) v ver =
    if_cases (λ (r : VersionsInfo × Bool). r.0.current ≡ v.current) (includes vs ver) (λ _. refl)
      (λ _. refl)

pub add_archived-current : (v : VersionsInfo) (ver : ℕ) → (add_archived v ver).0.current ≡ v.current
unfolding add_archived
add_archived-current v ver = add_to_list-current v.archived v ver
