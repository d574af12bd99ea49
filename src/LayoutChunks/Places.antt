-- ===== src/LayoutChunks/Places.antt =====
-- Where each byte of a version is, by the chunks of its layout: the abstract view of an array of
-- chunks.
use core_3nweb_client_lib.Base.{
  ℕ, ◌+◌, ◌-◌, ◌≡◌, refl, Bool, true, false, ◌&&◌, Option, none, some, List, [], ◌∷◌, ltb, leb,
  if◌then◌else◌,
}
use core_3nweb_client_lib.SegsChunk.{
  SegsChunk, new_endless, new, base, new_on_disk, base_on_disk, this_ver_ofs,
}
use core_3nweb_client_lib.LayoutChunks.{len_of}

-- A byte is in this file, is a byte of the base at an offset, is both, or is not written.
pub data Place : Type 0 where
  on_disk of_base : ℕ → Place
  cached : ℕ → ℕ → Place
  unwritten : Place

unfoldable pub place_in : SegsChunk → ℕ → Place
place_in (new_endless o) p = unwritten
place_in (new o l) p = unwritten
place_in (base o l b) p = of_base (b + (p - o))
place_in (new_on_disk o l f) p = on_disk (f + (p - o))
place_in (base_on_disk o l b f) p = cached (b + (p - o)) (f + (p - o))

unfoldable pub covers : SegsChunk → ℕ → Bool
covers (new_endless o) p = leb o p
covers c p = leb (this_ver_ofs c) p && ltb p (this_ver_ofs c + len_of c)

unfoldable pub place_at : List SegsChunk → ℕ → Option Place
unfolding place_in covers
place_at [] p = none
place_at (c ∷ cs) p = if covers c p then some (place_in c p) else place_at cs p

-- Chunks lie one after another from `ofs` on, and only the last one has no end.
unfoldable pub IsTiling : ℕ → List SegsChunk → Type 0
IsTiling ofs [] = Unit
IsTiling ofs (new_endless o ∷ cs) = (o ≡ ofs) × (cs ≡ [])
IsTiling ofs (c ∷ cs) = (this_ver_ofs c ≡ ofs) × IsTiling (ofs + len_of c) cs

-- The bytes from `ofs` up to the end of the chunks.
unfoldable pub total_len : List SegsChunk → ℕ
total_len [] = 0
total_len (c ∷ cs) = len_of c + total_len cs

-- `FiniteSegsChunk`
unfoldable pub IsFinite : SegsChunk → Type 0
IsFinite (new_endless o) = ⊥
IsFinite c = Unit

pub IsTiling-cons :
    (c : SegsChunk) (cs : List SegsChunk) (ofs : ℕ)
    → IsFinite c
    → this_ver_ofs c ≡ ofs
    → IsTiling (ofs + len_of c) cs
    → IsTiling ofs (c ∷ cs)
unfolding IsTiling IsFinite
IsTiling-cons (new_endless o) cs ofs fin at t = absurd fin
IsTiling-cons (new o l) cs ofs fin at t = (at, t)
IsTiling-cons (base o l b) cs ofs fin at t = (at, t)
IsTiling-cons (new_on_disk o l f) cs ofs fin at t = (at, t)
IsTiling-cons (base_on_disk o l b f) cs ofs fin at t = (at, t)

pub covered-place :
    (c : SegsChunk) (xs : List SegsChunk) (p : ℕ)
    → covers c p ≡ true
    → place_at (c ∷ xs) p ≡ some (place_in c p)
unfolding place_at
covered-place c xs p h = rw h refl

pub missed-place :
    (c : SegsChunk) (xs : List SegsChunk) (p : ℕ)
    → covers c p ≡ false
    → place_at (c ∷ xs) p ≡ place_at xs p
unfolding place_at
missed-place c xs p h = rw h refl
