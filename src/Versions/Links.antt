-- ===== src/Versions/Links.antt =====
-- The links between versions and their bases stay consistent, and a removal spares what an
-- archived version is built on.
use core_3nweb_client_lib.Base.{
  ℕ, zero, suc, ◌<◌, ◌≡◌, ◌≢◌, inl, inr, refl, ap, ◌∙◌, arith, true, false, some, truthy, ◌==◌,
  Option-cases, if_cases,
}
use core_3nweb_client_lib.Base.NumMap.{NumMap, get, remove, size, get-remove}
use core_3nweb_client_lib.Versions.{
  VersionsInfo, is_archived_in, unlink, rm_non_arch_loop, rm_non_arch_versions_in,
}

-- The two maps hold the same links, and a base is smaller than what is built on it.
pub record IsLinked (v : VersionsInfo) : Type 0 where
  pub down : (d b : ℕ) → get v.diff_to_base d ≡ some b → b < d
  pub back : (d b : ℕ) → get v.diff_to_base d ≡ some b → get v.base_to_diff b ≡ some d
  pub forth : (b d : ℕ) → get v.base_to_diff b ≡ some d → get v.diff_to_base d ≡ some b

-- `x` is `a`, its base, the base of that, and so on.
pub data Reach (links : NumMap) (a : ℕ) : ℕ → Type 0 where
  start : Reach links a a
  onto_base : {x y : ℕ} → Reach links a x → get links x ≡ some y → Reach links a y

pub some_same : {a b : ℕ} → some a ≡ some b → a ≡ b
some_same h = cc

module _ (v : VersionsInfo) (h : IsLinked v) (ver base : ℕ)
    (e : get v.diff_to_base ver ≡ some base) where
  unlink-IsLinked : IsLinked (unlink v ver base)
  unlink-IsLinked = record {
    down = λ d b p. ground (arith, get-remove v.diff_to_base ver d, h.down d b);
    back = λ d b p. ground (
      arith,
      e,
      get-remove v.diff_to_base ver d,
      get-remove v.base_to_diff base b,
      h.back d b,
      h.back ver base,
      h.forth b d,
      h.forth base ver,
    );
    forth = λ b d p. ground (
      arith,
      e,
      get-remove v.diff_to_base ver d,
      get-remove v.base_to_diff base b,
      h.forth b d,
      h.back ver base,
      h.back d b,
    );
  }

-- One round of the removal: nothing happens, or a version that is neither archived nor a base for
-- another loses its link, and its base, which is not 0, is next.
module _ {ℓ} (P : VersionsInfo → Type ℓ) (fuel : ℕ) (v : VersionsInfo) (ver : ℕ) where
  pub rm_non_arch_cases :
      P v
      → ((base : ℕ)
          → get v.diff_to_base ver ≡ some base
          → is_archived_in v ver ≡ false
          → truthy (get v.base_to_diff ver) ≡ false
          → P (rm_non_arch_loop fuel (unlink v ver base) base))
      → P (rm_non_arch_loop (suc fuel) v ver)
  unfolding rm_non_arch_loop
  rm_non_arch_cases stays goes = elim (Option-cases (get v.diff_to_base ver)) [
    | inl e ↦ rw (e, rm_non_arch_loop) stays
    | inr (base, e) ↦
        rw (e, rm_non_arch_loop)
          (if_cases P (is_archived_in v ver) (λ _. stays)
            (λ free.
              if_cases P (truthy (get v.base_to_diff ver)) (λ _. stays)
                (λ unused. if_cases P (base == 0) (λ _. stays) (λ _. goes base e free unused))))
  ]

rm_non_arch_loop-IsLinked :
    (fuel : ℕ) (v : VersionsInfo) (ver : ℕ) → IsLinked v → IsLinked (rm_non_arch_loop fuel v ver)
rm_non_arch_loop-IsLinked zero v ver h = unfold rm_non_arch_loop in h
rm_non_arch_loop-IsLinked (suc f) v ver h = rm_non_arch_cases IsLinked f v ver h (λ base e _ _.
    rm_non_arch_loop-IsLinked f (unlink v ver base) base (unlink-IsLinked v h ver base e))

pub rm_non_arch_versions_in-IsLinked :
    (v : VersionsInfo) (ver : ℕ) → IsLinked v → IsLinked (rm_non_arch_versions_in v ver)
unfolding rm_non_arch_versions_in
rm_non_arch_versions_in-IsLinked v ver h =
    rm_non_arch_loop-IsLinked (suc (size v.diff_to_base)) v ver h

-- The version whose link goes stands on no archived version's way down.
module _ (v : VersionsInfo) (h : IsLinked v) (ver base : ℕ) (free : is_archived_in v ver ≡ false)
    (unused : truthy (get v.base_to_diff ver) ≡ false) (a : ℕ)
    (archived : is_archived_in v a ≡ true) where
  spared : {x : ℕ} → Reach v.diff_to_base a x → (x ≢ ver) × Reach (remove v.diff_to_base ver) a x
  spared start = ((λ e. cc (ap (is_archived_in v) e)), start)
  spared (onto_base {x} {y} r e) =
      let (ne, r') = spared r in
      (
        (λ p. ground (arith, h.back x y e, h.down x y e)),
        onto_base r' (ground (arith, get-remove v.diff_to_base ver x)),
      )

-- What an archived version is built on keeps its links: whichever version is removed, the base of
-- every version on an archived version's way down is what it was.
pub rm_non_arch_loop_spares :
    (fuel : ℕ) (v : VersionsInfo) (ver a x : ℕ)
    → IsLinked v
    → is_archived_in v a ≡ true
    → Reach v.diff_to_base a x
    → get (rm_non_arch_loop fuel v ver).diff_to_base x ≡ get v.diff_to_base x
rm_non_arch_loop_spares zero v ver a x h archived r = unfold rm_non_arch_loop in refl
rm_non_arch_loop_spares (suc f) v ver a x h archived r =
    rm_non_arch_cases (λ w. get w.diff_to_base x ≡ get v.diff_to_base x) f v ver refl
      (λ base e free unused.
        let (ne, r') = spared v h ver base free unused a archived r in
        rm_non_arch_loop_spares f (unlink v ver base) base a x (unlink-IsLinked v h ver base e)
          archived r'
        ∙ ground (arith, get-remove v.diff_to_base ver x))
