-- ===== src/LayoutChunks/Holes.antt =====
-- `ensureNoHolesIn` of ts-code/lib-common/objs-on-disk/file-layout.ts.
use core_3nweb_client_lib.Base.{ℕ, ◌+◌, ◌≡◌, refl, arith, List, [], ◌∷◌, ok, ◌↔◌}
use core_3nweb_client_lib.SegsChunk.{SegsChunk, new_endless, new, base, new_on_disk, base_on_disk}
use core_3nweb_client_lib.LayoutChunks.{no_holes_from, ensure_no_holes_in}
use core_3nweb_client_lib.LayoutChunks.Places.{IsTiling}

pub no_holes_from-IsTiling :
    (ofs : ℕ) (cs : List SegsChunk) → no_holes_from ofs cs ≡ ok tt → IsTiling ofs cs
unfolding no_holes_from IsTiling
no_holes_from-IsTiling ofs [] h = tt
no_holes_from-IsTiling ofs (new_endless o ∷ []) h = ground arith
no_holes_from-IsTiling ofs (new_endless o ∷ c ∷ cs) h = ground arith
no_holes_from-IsTiling ofs (new o l ∷ cs) h = ground (arith, no_holes_from-IsTiling (ofs + l) cs)
no_holes_from-IsTiling ofs (base o l b ∷ cs) h = ground (arith, no_holes_from-IsTiling (ofs + l) cs)
no_holes_from-IsTiling ofs (new_on_disk o l f ∷ cs) h =
    ground (arith, no_holes_from-IsTiling (ofs + l) cs)
no_holes_from-IsTiling ofs (base_on_disk o l b f ∷ cs) h =
    ground (arith, no_holes_from-IsTiling (ofs + l) cs)

IsTiling-no_holes_from :
    (ofs : ℕ) (cs : List SegsChunk) → IsTiling ofs cs → no_holes_from ofs cs ≡ ok tt
unfolding no_holes_from IsTiling
IsTiling-no_holes_from ofs [] h = refl
IsTiling-no_holes_from ofs (new_endless o ∷ []) h = ground arith
IsTiling-no_holes_from ofs (new_endless o ∷ c ∷ cs) h = cc h.1
IsTiling-no_holes_from ofs (new o l ∷ cs) h =
    ground (arith, IsTiling-no_holes_from (ofs + l) cs h.1)
IsTiling-no_holes_from ofs (base o l b ∷ cs) h =
    ground (arith, IsTiling-no_holes_from (ofs + l) cs h.1)
IsTiling-no_holes_from ofs (new_on_disk o l f ∷ cs) h =
    ground (arith, IsTiling-no_holes_from (ofs + l) cs h.1)
IsTiling-no_holes_from ofs (base_on_disk o l b f ∷ cs) h =
    ground (arith, IsTiling-no_holes_from (ofs + l) cs h.1)

-- `ensureNoHolesIn` returns exactly for chunks that lie one after another from 0 on, with no
-- endless chunk but the last.
pub ensure_no_holes_in-IsTiling :
    (cs : List SegsChunk) → (ensure_no_holes_in cs ≡ ok tt) ↔ IsTiling 0 cs
unfolding ensure_no_holes_in
ensure_no_holes_in-IsTiling cs = (no_holes_from-IsTiling 0 cs, IsTiling-no_holes_from 0 cs)
