-- ===== src/LayoutChunks/Zipper.antt =====
-- Arrays of chunks that are cut at an index, and what they say of a byte.
use core_3nweb_client_lib.Base.{ℕ, ◌+◌, ◌≤◌, ◌≡◌, refl, ◌∙◌, arith, true, List, [], ◌∷◌, All}
use core_3nweb_client_lib.SegsChunk.{
  SegsChunk, new_endless, new, base, new_on_disk, base_on_disk, this_ver_ofs,
}
use core_3nweb_client_lib.LayoutChunks.{len_of, rejoin, backwards, ends_by}
use core_3nweb_client_lib.LayoutChunks.Places.{place_at, covers}

abbrev pub EndsBy : ℕ → SegsChunk → Type 0
EndsBy ofs c = ends_by c ofs ≡ true

-- Chunks in the order of their offsets that do not overlap, all from `from` on.
unfoldable pub IsOrdered : ℕ → List SegsChunk → Type 0
IsOrdered from [] = Unit
IsOrdered from (new_endless o ∷ cs) = (from ≤ o) × (cs ≡ [])
IsOrdered from (c ∷ cs) = (from ≤ this_ver_ofs c) × IsOrdered (this_ver_ofs c + len_of c) cs

-- The same for chunks that are listed from the last one.
unfoldable pub IsStacked : List SegsChunk → Type 0
IsStacked [] = Unit
IsStacked (c ∷ before) = All (EndsBy (this_ver_ofs c)) before × IsStacked before

pub EndsBy-mono : (a b : ℕ) (c : SegsChunk) → a ≤ b → EndsBy a c → EndsBy b c
unfolding ends_by
EndsBy-mono a b (new_endless o) h e = cc e
EndsBy-mono a b (new o l) h e = ground arith
EndsBy-mono a b (base o l bo) h e = ground arith
EndsBy-mono a b (new_on_disk o l f) h e = ground arith
EndsBy-mono a b (base_on_disk o l bo f) h e = ground arith

pub All-EndsBy-mono :
    (a b : ℕ) (cs : List SegsChunk) → a ≤ b → All (EndsBy a) cs → All (EndsBy b) cs
All-EndsBy-mono a b [] h all = tt
All-EndsBy-mono a b (c ∷ cs) h (e, all) = (EndsBy-mono a b c h e, All-EndsBy-mono a b cs h all)

pub rejoin-backwards :
    (before cs : List SegsChunk) → rejoin (backwards before cs) [] ≡ rejoin before cs
rejoin-backwards before [] = refl
rejoin-backwards before (c ∷ cs) = rejoin-backwards (c ∷ before) cs

pub All-backwards {ℓ} :
    (P : SegsChunk → Type ℓ) (before cs : List SegsChunk)
    → All P before
    → All P cs
    → All P (backwards before cs)
All-backwards P before [] hb hc = hb
All-backwards P before (c ∷ cs) hb (h, hc) = All-backwards P (c ∷ before) cs (h, hb) hc

IsStacked-on :
    (c : SegsChunk) (before : List SegsChunk) (from : ℕ)
    → from ≤ this_ver_ofs c
    → All (EndsBy from) before
    → IsStacked before
    → IsStacked (c ∷ before)
unfolding IsStacked
IsStacked-on c before from h all stacked = (All-EndsBy-mono from _ before h all, stacked)

ended_by :
    (c : SegsChunk) (before : List SegsChunk) (from end : ℕ)
    → EndsBy end c
    → from ≤ end
    → All (EndsBy from) before
    → All (EndsBy end) (c ∷ before)
ended_by c before from end e h all = (e, All-EndsBy-mono from end before h all)

pub backwards-IsStacked :
    (before cs : List SegsChunk) (from : ℕ)
    → IsOrdered from cs
    → All (EndsBy from) before
    → IsStacked before
    → IsStacked (backwards before cs)
unfolding IsOrdered ends_by
backwards-IsStacked before [] from o all stacked = stacked
backwards-IsStacked before (new_endless s ∷ []) from (h, last) all stacked =
    IsStacked-on (new_endless s) before from h all stacked
backwards-IsStacked before (new_endless s ∷ c ∷ cs) from (h, last) all stacked = cc last
backwards-IsStacked before (new s l ∷ cs) from (h, o) all stacked =
    backwards-IsStacked (new s l ∷ before) cs (s + l) o
      (ended_by (new s l) before from _ (ground arith) (omega arith) all)
      (IsStacked-on (new s l) before from h all stacked)
backwards-IsStacked before (base s l b ∷ cs) from (h, o) all stacked =
    backwards-IsStacked (base s l b ∷ before) cs (s + l) o
      (ended_by (base s l b) before from _ (ground arith) (omega arith) all)
      (IsStacked-on (base s l b) before from h all stacked)
backwards-IsStacked before (new_on_disk s l f ∷ cs) from (h, o) all stacked =
    backwards-IsStacked (new_on_disk s l f ∷ before) cs (s + l) o
      (ended_by (new_on_disk s l f) before from _ (ground arith) (omega arith) all)
      (IsStacked-on (new_on_disk s l f) before from h all stacked)
backwards-IsStacked before (base_on_disk s l b f ∷ cs) from (h, o) all stacked =
    backwards-IsStacked (base_on_disk s l b f ∷ before) cs (s + l) o
      (ended_by (base_on_disk s l b f) before from _ (ground arith) (omega arith) all)
      (IsStacked-on (base_on_disk s l b f) before from h all stacked)

same_head :
    (c : SegsChunk) (xs ys : List SegsChunk) (p : ℕ)
    → place_at xs p ≡ place_at ys p
    → place_at (c ∷ xs) p ≡ place_at (c ∷ ys) p
unfolding place_at
same_head c xs ys p h = rw h refl

-- What stands before a cut hides or keeps a byte alike.
pub place_at-rejoin :
    (before xs ys : List SegsChunk) (p : ℕ)
    → place_at xs p ≡ place_at ys p
    → place_at (rejoin before xs) p ≡ place_at (rejoin before ys) p
place_at-rejoin [] xs ys p h = h
place_at-rejoin (c ∷ before) xs ys p h =
    place_at-rejoin before (c ∷ xs) (c ∷ ys) p (same_head c xs ys p h)

ended-place :
    (c : SegsChunk) (xs : List SegsChunk) (p : ℕ) → EndsBy p c → place_at (c ∷ xs) p ≡ place_at xs p
unfolding ends_by place_at covers
ended-place (new_endless o) xs p e = cc e
ended-place (new o l) xs p e = ground arith
ended-place (base o l b) xs p e = ground arith
ended-place (new_on_disk o l f) xs p e = ground arith
ended-place (base_on_disk o l b f) xs p e = ground arith

pub place_at-rejoin_past :
    (before xs : List SegsChunk) (p : ℕ)
    → All (EndsBy p) before
    → place_at (rejoin before xs) p ≡ place_at xs p
place_at-rejoin_past [] xs p all = refl
place_at-rejoin_past (c ∷ before) xs p (e, all) =
    place_at-rejoin_past before (c ∷ xs) p all ∙ ended-place c xs p e
