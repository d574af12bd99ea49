-- ===== src/StatusInfo/FromServer.antt =====
-- `addArchVersionsFromList` of ts-code/core/storage/synced/obj-status.ts.
use core_3nweb_client_lib.Base.{
  ℕ, ◌≡◌, ◌∙◌, refl, sym, ap, Bool, true, false, ◌||◌, List, [], ◌∷◌, Option, none, some, zero, suc,
  get_elem?, length, Option-cases, includes, ◌==◌, ==_iff, if_cases, Bool-cases, inl, inr,
}
use core_3nweb_client_lib.Versions.{VersionsInfo, is_archived_in, add_archived}
use core_3nweb_client_lib.Versions.Current.{add_archived-current, rm_arch_version_from-current}
use core_3nweb_client_lib.Versions.Archived.{add_archived-is_archived_in}
use core_3nweb_client_lib.StatusInfo.{
  remove_arch_loop, remove_arch_versions_not_in_list, add_arch_loop, add_arch_versions_from_list,
}

or_with_false : (b : Bool) → b ≡ (b || false)
or_with_false true = refl
or_with_false false = refl

or_grouped : (a b c : Bool) → ((a || b) || c) ≡ (a || (b || c))
or_grouped true b c = refl
or_grouped false b c = refl

-- A version that is archived already adds nothing.
known_version :
    (v : VersionsInfo) (x z : ℕ) (rest : Bool)
    → is_archived_in v x ≡ true
    → (is_archived_in v z || rest) ≡ (is_archived_in v z || ((x == z) || rest))
known_version v x z rest known = elim (Bool-cases (x == z)) [
  | inl same ↦
      let there : is_archived_in v z ≡ true =
        ap (λ (t : ℕ). is_archived_in v t) (sym ((==_iff x z).0 same)) ∙ known in
      rw there refl
  | inr other ↦ rw other refl
]

loop-is_archived_in :
    (v : VersionsInfo) (vs : List ℕ) (z : ℕ)
    → is_archived_in (add_arch_loop v vs) z ≡ (is_archived_in v z || includes vs z)
unfolding add_arch_loop
loop-is_archived_in v [] z = or_with_false (is_archived_in v z)
loop-is_archived_in v (x ∷ xs) z =
    if_cases
      (λ (t : VersionsInfo).
        is_archived_in t z ≡ (is_archived_in v z || ((x == z) || includes xs z)))
      (is_archived_in v x)
      (λ known. loop-is_archived_in v xs z ∙ known_version v x z (includes xs z) known)
      (λ _.
        loop-is_archived_in (add_archived v x).0 xs z
        ∙ ap (λ (t : Bool). t || includes xs z) (add_archived-is_archived_in v x z)
        ∙ or_grouped (is_archived_in v z) (x == z) (includes xs z))

-- After `addArchVersionsFromList` the archived versions are exactly those that were archived before,
-- and those that the server tells of.
pub add_arch_versions_from_list-is_archived_in :
    (v : VersionsInfo) (vs : List ℕ) (z : ℕ)
    → is_archived_in (add_arch_versions_from_list v (some vs)).0 z
      ≡ (is_archived_in v z || includes vs z)
unfolding add_arch_versions_from_list
add_arch_versions_from_list-is_archived_in v vs z = loop-is_archived_in v vs z

add_arch_loop-current : (v : VersionsInfo) (vs : List ℕ) → (add_arch_loop v vs).current ≡ v.current
unfolding add_arch_loop
add_arch_loop-current v [] = refl
add_arch_loop-current v (x ∷ vs) =
    if_cases (λ (t : VersionsInfo). t.current ≡ v.current) (is_archived_in v x)
      (λ _. add_arch_loop-current v vs)
      (λ _. add_arch_loop-current (add_archived v x).0 vs ∙ add_archived-current v x)

pub add_arch_versions_from_list-current :
    (v : VersionsInfo) (vs : Option (List ℕ))
    → (add_arch_versions_from_list v vs).0.current ≡ v.current
unfolding add_arch_versions_from_list
add_arch_versions_from_list-current v none = refl
add_arch_versions_from_list-current v (some vs) = add_arch_loop-current v vs

remove_arch_loop-current :
    (fuel i : ℕ) (v : VersionsInfo) (keep : List ℕ)
    → (remove_arch_loop fuel i v keep).0.current ≡ v.current
unfolding remove_arch_loop
remove_arch_loop-current zero i v keep = refl
remove_arch_loop-current (suc f) i v keep = elim (Option-cases v.archived) [
  | inl e ↦ rw (e, remove_arch_loop) refl
  | inr (vs, e) ↦ elim (Option-cases (get_elem? vs i)) [
    | inl e' ↦ rw (e, e', remove_arch_loop) refl
    | inr (x, e') ↦
        rw (e, e', remove_arch_loop)
          (if_cases (λ (r : VersionsInfo × Bool). r.0.current ≡ v.current) (includes keep x)
            (λ _. remove_arch_loop-current f (suc i) _ keep)
            (λ _. remove_arch_loop-current f (suc i) _ keep ∙ rm_arch_version_from-current _ x))
  ]
]

pub remove_arch_versions_not_in_list-current :
    (v : VersionsInfo) (keep : Option (List ℕ))
    → (remove_arch_versions_not_in_list v keep).0.current ≡ v.current
unfolding remove_arch_versions_not_in_list
remove_arch_versions_not_in_list-current v keep = elim (Option-cases v.archived) [
  | inl e ↦ rw e refl
  | inr (vs, e) ↦ rw e (remove_arch_loop-current (length vs) 0 _ _)
]
