-- ===== src/LayoutChunks/Lookup.antt =====
-- `segsLocations` of ts-code/lib-common/objs-on-disk/file-layout.ts, and where bytes are.
use core_3nweb_client_lib.Base.{
  ℕ, zero, suc, ◌+◌, ◌-◌, ◌^◌, ◌≤◌, ◌<◌, ◌≡◌, ◌∙◌, refl, sym, ap, arith, Bool, true, false, Option,
  none, some, List, [], ◌∷◌, ltb, leb, Outcome, ok, if_cases, Bool-cases, inl, inr,
}
use core_3nweb_client_lib.SegsChunk.{
  SegsChunk, new_endless, new, base, new_on_disk, base_on_disk, this_ver_ofs,
}
use core_3nweb_client_lib.LayoutChunks.{
  LayoutError, len_of, chunk_end, chop, rest_locations, locations_loop, prepend,
}
use core_3nweb_client_lib.LayoutChunks.Places.{
  IsTiling, place_at, place_in, covers, Place, unwritten,
}

-- Bytes past the chunks of a layout that is not frozen are yet to be written.
abbrev pub or_unwritten : Bool → Option Place → Option Place
or_unwritten is_frozen (some place) = some place
or_unwritten true none = none
or_unwritten false none = some unwritten

-- The answer tells of every byte from `ofs` to `end` where it is.
pub Locates : Bool → List SegsChunk → ℕ → ℕ → Outcome LayoutError (List SegsChunk) → Type 0
Locates is_frozen cs ofs end r =
    (parts : List SegsChunk) × (r ≡ ok parts)
    × ((p : ℕ) → ofs ≤ p → p < end → place_at parts p ≡ or_unwritten is_frozen (place_at cs p))

-- A byte of a chunk is in the part that is chopped off where that part has not ended.
chop-place :
    (c : SegsChunk) (parts cs : List SegsChunk) (ofs end p : ℕ)
    → this_ver_ofs c ≤ ofs
    → ofs ≤ p
    → p < end
    → p < ofs + len_of (chop c ofs end)
    → (place_at (chop c ofs end ∷ parts) p ≡ some (place_in c p))
      × (place_at (c ∷ cs) p ≡ some (place_in c p))
unfolding chop place_at place_in covers
chop-place (new_endless o) parts cs ofs end p h1 h2 h3 h4 = ground arith
chop-place (new o l) parts cs ofs end p h1 h2 h3 h4 = ground arith
chop-place (base o l b) parts cs ofs end p h1 h2 h3 h4 = ground arith
chop-place (new_on_disk o l f) parts cs ofs end p h1 h2 h3 h4 = ground arith
chop-place (base_on_disk o l b f) parts cs ofs end p h1 h2 h3 h4 = ground arith

past_chop-place :
    (c : SegsChunk) (parts cs : List SegsChunk) (ofs end p : ℕ)
    → this_ver_ofs c ≤ ofs
    → p < end
    → ofs + len_of (chop c ofs end) ≤ p
    → (place_at (chop c ofs end ∷ parts) p ≡ place_at parts p)
      × (place_at (c ∷ cs) p ≡ place_at cs p)
unfolding chop place_at covers
past_chop-place (new_endless o) parts cs ofs end p h1 h2 h3 = ground arith
past_chop-place (new o l) parts cs ofs end p h1 h2 h3 = ground arith
past_chop-place (base o l b) parts cs ofs end p h1 h2 h3 = ground arith
past_chop-place (new_on_disk o l f) parts cs ofs end p h1 h2 h3 = ground arith
past_chop-place (base_on_disk o l b f) parts cs ofs end p h1 h2 h3 = ground arith

skipped-place :
    (c : SegsChunk) (cs : List SegsChunk) (ofs p : ℕ)
    → chunk_end c ≤ ofs
    → ofs ≤ p
    → p < 2 ^ 53 - 1
    → place_at (c ∷ cs) p ≡ place_at cs p
unfolding chunk_end place_at covers
skipped-place (new_endless o) cs ofs p h1 h2 h3 = ground arith
skipped-place (new o l) cs ofs p h1 h2 h3 = ground arith
skipped-place (base o l b) cs ofs p h1 h2 h3 = ground arith
skipped-place (new_on_disk o l f) cs ofs p h1 h2 h3 = ground arith
skipped-place (base_on_disk o l b f) cs ofs p h1 h2 h3 = ground arith

IsTiling-tail :
    (c : SegsChunk) (cs : List SegsChunk) (from : ℕ)
    → IsTiling from (c ∷ cs)
    → (this_ver_ofs c ≡ from) × IsTiling (chunk_end c) cs
unfolding IsTiling chunk_end
IsTiling-tail (new_endless o) [] from (at, none_after) = (at, tt)
IsTiling-tail (new_endless o) (d ∷ cs) from (at, none_after) = cc none_after
IsTiling-tail (new o l) cs from (at, t) = (at, rw at t)
IsTiling-tail (base o l b) cs from (at, t) = (at, rw at t)
IsTiling-tail (new_on_disk o l f) cs from (at, t) = (at, rw at t)
IsTiling-tail (base_on_disk o l b f) cs from (at, t) = (at, rw at t)

chop_reaches :
    (c : SegsChunk) (ofs end : ℕ)
    → ofs < chunk_end c
    → ofs + len_of (chop c ofs end) < end
    → chunk_end c ≤ ofs + len_of (chop c ofs end)
unfolding chop chunk_end
chop_reaches (new_endless o) ofs end h1 h2 = omega arith
chop_reaches (new o l) ofs end h1 h2 = omega arith
chop_reaches (base o l b) ofs end h1 h2 = omega arith
chop_reaches (new_on_disk o l f) ofs end h1 h2 = omega arith
chop_reaches (base_on_disk o l b f) ofs end h1 h2 = omega arith

len_of-chop_le : (c : SegsChunk) (ofs end : ℕ) → len_of (chop c ofs end) ≤ end - ofs
unfolding chop
len_of-chop_le (new_endless o) ofs end = omega arith
len_of-chop_le (new o l) ofs end = omega arith
len_of-chop_le (base o l b) ofs end = omega arith
len_of-chop_le (new_on_disk o l f) ofs end = omega arith
len_of-chop_le (base_on_disk o l b f) ofs end = omega arith

-- One chunk's part in front of the parts of the chunks that follow.
Locates-chop :
    (is_frozen : Bool) (c : SegsChunk) (cs : List SegsChunk) (ofs end : ℕ)
    (r : Outcome LayoutError (List SegsChunk))
    → this_ver_ofs c ≤ ofs
    → Locates is_frozen cs (ofs + len_of (chop c ofs end)) end r
    → Locates is_frozen (c ∷ cs) ofs end (prepend (chop c ofs end) r)
unfolding Locates
Locates-chop is_frozen c cs ofs end r h (parts, e, located) = (
  chop c ofs end ∷ parts,
  rw e refl,
  λ p above below. elim (Bool-cases (ltb p (ofs + len_of (chop c ofs end)))) [
    | inl inside ↦
        let (part_at, chunk_at) = chop-place c parts cs ofs end p h above below (ground arith) in
        part_at ∙ sym (ap (or_unwritten is_frozen) chunk_at)
    | inr outside ↦
        let (part_at, chunk_at) = past_chop-place c parts cs ofs end p h below (ground arith) in
        part_at ∙ located p (ground arith) below ∙ sym (ap (or_unwritten is_frozen) chunk_at)
  ],
)

Locates-rest :
    (is_frozen : Bool) (ofs len end : ℕ)
    → end ≡ ofs + len
    → Locates is_frozen [] ofs end (ok (rest_locations is_frozen ofs len))
unfolding Locates rest_locations place_at covers place_in
Locates-rest true ofs len end h = ([], ground arith, λ p above below. refl)
Locates-rest false ofs zero end h = ([], refl, λ p above below. absurd (omega arith))
Locates-rest false ofs (suc len) end h =
    (new ofs (suc len) ∷ [], ground arith, λ p above below. ground arith)

Locates-skip :
    (is_frozen : Bool) (c : SegsChunk) (cs : List SegsChunk) (ofs end : ℕ)
    (r : Outcome LayoutError (List SegsChunk))
    → chunk_end c ≤ ofs
    → end ≤ 2 ^ 53 - 1
    → Locates is_frozen cs ofs end r
    → Locates is_frozen (c ∷ cs) ofs end r
unfolding Locates
Locates-skip is_frozen c cs ofs end r before small (parts, e, located) = (
  parts,
  e,
  λ p above below.
      located p above below
      ∙ sym (ap (or_unwritten is_frozen) (skipped-place c cs ofs p before above (omega arith))),
)

-- Nothing is asked for.
Locates-none :
    (is_frozen : Bool) (cs : List SegsChunk) (ofs len end : ℕ)
    → len ≡ 0
    → end ≡ ofs + len
    → Locates is_frozen cs ofs end (ok (rest_locations is_frozen ofs len))
unfolding Locates rest_locations
Locates-none is_frozen cs ofs len end h e =
    ([], ground arith, λ p above below. absurd (omega arith))

pub locations_loop-Locates :
    (is_frozen : Bool) (cs : List SegsChunk) (from ofs len end : ℕ)
    → IsTiling from cs
    → (0 < len → from ≤ ofs)
    → end ≡ ofs + len
    → end ≤ 2 ^ 53 - 1
    → Locates is_frozen cs ofs end (locations_loop is_frozen end cs ofs len)
unfolding locations_loop
locations_loop-Locates is_frozen [] from ofs len end t h e small =
    Locates-rest is_frozen ofs len end e
locations_loop-Locates is_frozen (c ∷ cs) from ofs len end t h e small =
    let (at, tail) = IsTiling-tail c cs from t in
    if_cases (Locates is_frozen (c ∷ cs) ofs end) (ltb 0 len)
      (λ some_left.
        if_cases (Locates is_frozen (c ∷ cs) ofs end) (leb (chunk_end c) ofs)
          (λ before. Locates-skip is_frozen c cs ofs end _ (ground arith) small (
            locations_loop-Locates is_frozen cs (chunk_end c) ofs len end tail (λ _. ground arith) e
              small))
          (λ not_before.
            if_cases (Locates is_frozen (c ∷ cs) ofs end) (leb end (this_ver_ofs c))
              (λ after. absurd (ground (arith, h (ground arith))))
              (λ not_after.
                if_cases (Locates is_frozen (c ∷ cs) ofs end) (ltb ofs (this_ver_ofs c))
                  (λ hole_found. absurd (ground (arith, h (ground arith))))
                  (λ within. Locates-chop is_frozen c cs ofs end _ (ground arith) (
                    locations_loop-Locates is_frozen cs (chunk_end c) _ _ end tail
                      (λ more. chop_reaches c ofs end (ground arith) (omega arith))
                      (omega (arith, len_of-chop_le c ofs end)) small)))))
      (λ none_left. Locates-none is_frozen (c ∷ cs) ofs len end (ground arith) e)
