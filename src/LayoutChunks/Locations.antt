-- ===== src/LayoutChunks/Locations.antt =====
-- `segsLocations` of ts-code/lib-common/objs-on-disk/file-layout.ts.
use core_3nweb_client_lib.Base.{
  ℕ, zero, suc, ◌+◌, ◌-◌, ◌≤◌, ◌≡◌, refl, arith, false, List, [], ◌∷◌, ltb, leb, Outcome, ok,
  if_cases,
}
use core_3nweb_client_lib.SegsChunk.{
  SegsChunk, new_endless, new, base, new_on_disk, base_on_disk, this_ver_ofs,
}
use core_3nweb_client_lib.LayoutChunks.{
  LayoutError, len_of, chunk_end, chop, rest_locations, locations_loop, prepend,
}
use core_3nweb_client_lib.LayoutChunks.Places.{IsTiling, IsTiling-cons, IsFinite, total_len}

-- The answer is of parts that lie one after another from `ofs` on, with `len` bytes in all.
pub Tiles : ℕ → ℕ → Outcome LayoutError (List SegsChunk) → Type 0
Tiles ofs len r =
    (parts : List SegsChunk) × (r ≡ ok parts) × IsTiling ofs parts × (total_len parts ≡ len)

Tiles-prepend :
    (c : SegsChunk) (ofs len : ℕ) (r : Outcome LayoutError (List SegsChunk))
    → IsFinite c
    → this_ver_ofs c ≡ ofs
    → len_of c ≤ len
    → Tiles (ofs + len_of c) (len - len_of c) r
    → Tiles ofs len (prepend c r)
unfolding Tiles total_len
Tiles-prepend c ofs len r fin at fits (parts, e, tiling, total) =
    (c ∷ parts, rw e refl, IsTiling-cons c parts ofs fin at tiling, omega arith)

Tiles-rest : (ofs len : ℕ) → Tiles ofs len (ok (rest_locations false ofs len))
unfolding Tiles total_len rest_locations IsTiling
Tiles-rest ofs zero = ([], refl, tt, refl)
Tiles-rest ofs (suc len) = (new ofs (suc len) ∷ [], ground arith, (refl, tt), omega arith)

-- A part is of an end, and starts where the question does.
chop_lem :
    (c : SegsChunk) (ofs end : ℕ)
    → this_ver_ofs c ≤ ofs
    → IsFinite (chop c ofs end)
      × (this_ver_ofs (chop c ofs end) ≡ ofs)
      × (len_of (chop c ofs end) ≤ end - ofs)
unfolding chop IsFinite
chop_lem (new_endless o) ofs end h = (tt, refl, omega arith)
chop_lem (new o l) ofs end h = (tt, refl, omega arith)
chop_lem (base o l b) ofs end h = (tt, refl, omega arith)
chop_lem (new_on_disk o l f) ofs end h = (tt, refl, omega arith)
chop_lem (base_on_disk o l b f) ofs end h = (tt, refl, omega arith)

IsFinite-new : (o l : ℕ) → IsFinite (new o l)
unfolding IsFinite
IsFinite-new o l = tt

pub locations_loop-Tiles :
    (cs : List SegsChunk) (ofs len end : ℕ)
    → end ≡ ofs + len
    → Tiles ofs len (locations_loop false end cs ofs len)
unfolding locations_loop
locations_loop-Tiles [] ofs len end h = Tiles-rest ofs len
locations_loop-Tiles (c ∷ cs) ofs len end h =
    if_cases (Tiles ofs len) (ltb 0 len)
      (λ some_left.
        if_cases (Tiles ofs len) (leb (chunk_end c) ofs)
          (λ before. locations_loop-Tiles cs ofs len end h)
          (λ not_before.
            if_cases (Tiles ofs len) (leb end (this_ver_ofs c)) (λ after. Tiles-rest ofs len)
              (λ not_after.
                if_cases (Tiles ofs len) (ltb ofs (this_ver_ofs c))
                  (λ hole_found.
                    Tiles-prepend (new ofs (this_ver_ofs c - ofs)) ofs len _ (IsFinite-new _ _) refl
                      (ground arith) (locations_loop-Tiles cs _ _ end (ground arith)))
                  (λ within.
                    let (fin, at, fits) = chop_lem c ofs end (ground arith) in
                    Tiles-prepend (chop c ofs end) ofs len _ fin at (omega arith)
                      (locations_loop-Tiles cs _ _ end (omega arith))))))
      (λ none_left. Tiles-rest ofs len)
