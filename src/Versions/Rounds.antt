-- ===== src/Versions/Rounds.antt =====
-- The rounds that the loops of obj-info-file.ts are given are enough.
use core_3nweb_client_lib.Base.{ℕ, zero, suc, ◌<◌, ◌≡◌, arith, Option-cases, inl, inr}
use core_3nweb_client_lib.Base.NumMap.{get, size, size-remove-lt}
use core_3nweb_client_lib.Versions.{VersionsInfo, unlink, rm_non_arch_loop, rm_non_arch_versions_in}

-- More rounds than there are links change nothing.
rounds_agree :
    (f g : ℕ) (v : VersionsInfo) (ver : ℕ)
    → size v.diff_to_base < f
    → size v.diff_to_base < g
    → rm_non_arch_loop f v ver ≡ rm_non_arch_loop g v ver
unfolding rm_non_arch_loop
rounds_agree zero g v ver hf hg = absurd (omega arith)
rounds_agree (suc f) zero v ver hf hg = absurd (omega arith)
rounds_agree (suc f) (suc g) v ver hf hg = elim (Option-cases (get v.diff_to_base ver)) [
  | inl e ↦ ground (arith, e)
  | inr (base, e) ↦ ground (
    arith,
    e,
    size-remove-lt v.diff_to_base ver base e,
    rounds_agree f g (unlink v ver base) base,
  )
]

-- With any number of rounds above the number of links, the loop of `rmNonArchVersionsIn` has the
-- result of the model: the model's rounds never run out.
pub rm_non_arch_rounds :
    (fuel : ℕ) (v : VersionsInfo) (ver : ℕ)
    → size v.diff_to_base < fuel
    → rm_non_arch_loop fuel v ver ≡ rm_non_arch_versions_in v ver
unfolding rm_non_arch_versions_in
rm_non_arch_rounds fuel v ver h =
    rounds_agree fuel (suc (size v.diff_to_base)) v ver h (omega arith)
