-- ===== src/LayoutChunks/NewBytes.antt =====
-- `addNewSegsChunkTo` of ts-code/lib-common/objs-on-disk/file-layout.ts.
use core_3nweb_client_lib.Base.{
  ℕ, ◌+◌, ◌≤◌, ◌≡◌, refl, sym, ap, ◌∙◌, arith, false, ◌⊎◌, inl, inr, List, [], ◌∷◌, ◌++◌, All, ◌&&◌,
  ◌==◌, ltb, leb, ok, Outcome, if_cases, Bool-cases,
}
use core_3nweb_client_lib.SegsChunk.{
  SegsChunk, new_endless, new, base, new_on_disk, base_on_disk, this_ver_ofs,
}
use core_3nweb_client_lib.LayoutChunks.{
  LayoutError, len_of, rejoin, backwards, ends_by, can_merge_chunks, grow, merge_right,
  insert_or_merge_chunk_at, new_left, new_right, cut_for_new, add_new_loop, add_new_segs_chunk_to,
}
use core_3nweb_client_lib.LayoutChunks.Places.{
  place_at, covers, place_in, covered-place, missed-place,
}
use core_3nweb_client_lib.LayoutChunks.Zipper.{
  EndsBy, IsOrdered, IsStacked, All-EndsBy-mono, rejoin-backwards, All-backwards,
  backwards-IsStacked, place_at-rejoin, place_at-rejoin_past,
}

-- The chunks that come out put every byte where `cs` does.
unfoldable pub Shows : List SegsChunk → Outcome LayoutError (List SegsChunk) → Type 0
Shows cs r = (out : List SegsChunk) × (r ≡ ok out) × ((p : ℕ) → place_at out p ≡ place_at cs p)

Shows-same :
    (xs ys : List SegsChunk) (r : Outcome LayoutError (List SegsChunk))
    → ((p : ℕ) → place_at xs p ≡ place_at ys p)
    → Shows xs r
    → Shows ys r
unfolding Shows
Shows-same xs ys r same (out, e, shown) = (out, e, λ p. shown p ∙ same p)

-- Two runs that merge are one run.
merged-place :
    (o l f o' l' f' : ℕ) (xs : List SegsChunk) (p : ℕ)
    → o + l ≡ o'
    → f + l ≡ f'
    → place_at (new_on_disk o (l + l') f ∷ xs) p
      ≡ place_at (new_on_disk o l f ∷ new_on_disk o' l' f' ∷ xs) p
unfolding place_at covers place_in
merged-place o l f o' l' f' xs p h1 h2 = ground arith

merge_right-Shows :
    (before after : List SegsChunk) (o l f : ℕ)
    → Shows
        (rejoin before (new_on_disk o l f ∷ after))
        (merge_right before (new_on_disk o l f) after)
unfolding merge_right can_merge_chunks grow Shows
merge_right-Shows before [] o l f = (_, refl, λ p. refl)
merge_right-Shows before (new_endless o' ∷ after) o l f = (_, refl, λ p. refl)
merge_right-Shows before (new o' l' ∷ after) o l f = (_, refl, λ p. refl)
merge_right-Shows before (base o' l' b ∷ after) o l f = (_, refl, λ p. refl)
merge_right-Shows before (base_on_disk o' l' b f' ∷ after) o l f = (_, refl, λ p. refl)
merge_right-Shows before (new_on_disk o' l' f' ∷ after) o l f =
    elim (Bool-cases (o + l == o' && f + l == f')) [
      | inl merges ↦ (
        rejoin before (new_on_disk o (l + l') f ∷ after),
        rw merges refl,
        λ p.
            place_at-rejoin before _ _ p
              (merged-place o l f o' l' f' after p (ground arith) (ground arith)),
      )
      | inr apart ↦ (
        rejoin before (new_on_disk o l f ∷ new_on_disk o' l' f' ∷ after),
        rw apart refl,
        λ p. refl,
      )
    ]

insert-Shows :
    (before after : List SegsChunk) (o l f : ℕ)
    → Shows
        (rejoin before (new_on_disk o l f ∷ after))
        (insert_or_merge_chunk_at before after (new_on_disk o l f))
unfolding insert_or_merge_chunk_at can_merge_chunks grow
insert-Shows [] after o l f = merge_right-Shows [] after o l f
insert-Shows (new_endless a ∷ before) after o l f =
    merge_right-Shows (new_endless a ∷ before) after o l f
insert-Shows (new a al ∷ before) after o l f = merge_right-Shows (new a al ∷ before) after o l f
insert-Shows (base a al ab ∷ before) after o l f =
    merge_right-Shows (base a al ab ∷ before) after o l f
insert-Shows (base_on_disk a al ab af ∷ before) after o l f =
    merge_right-Shows (base_on_disk a al ab af ∷ before) after o l f
insert-Shows (new_on_disk a al af ∷ before) after o l f =
    if_cases (Shows (rejoin (new_on_disk a al af ∷ before) (new_on_disk o l f ∷ after)))
      (a + al == o && af + al == f)
      (λ merges.
        Shows-same _ _ _
          (λ p.
            place_at-rejoin before _ _ p
              (merged-place a al af o l f after p (ground arith) (ground arith)))
          (merge_right-Shows before after a (al + l) af))
      (λ apart. merge_right-Shows (new_on_disk a al af ∷ before) after o l f)

-- Bytes are written over what is not on disk, within one chunk of the layout.
unfoldable pub IsWritable : ℕ → ℕ → SegsChunk → Type 0
IsWritable ofs end (new_endless o) = (o ≤ ofs) ⊎ (end ≤ o)
IsWritable ofs end (new o l) = (o ≤ ofs) ⊎ (end ≤ o)
IsWritable ofs end c = (this_ver_ofs c + len_of c ≤ ofs) ⊎ (end ≤ this_ver_ofs c)

-- A chunk that ends before the new one may be put on either side of it.
swapped-place :
    (before after : List SegsChunk) (o l f : ℕ)
    → All (EndsBy o) before
    → (p : ℕ)
    → place_at (rejoin before (new_on_disk o l f ∷ after)) p
      ≡ place_at (new_on_disk o l f ∷ rejoin before after) p
unfolding covers
swapped-place before after o l f all p = elim (Bool-cases (covers (new_on_disk o l f) p)) [
  | inl hit ↦
      place_at-rejoin_past before (new_on_disk o l f ∷ after) p
        (All-EndsBy-mono o p before (ground arith) all)
      ∙ covered-place _ after p hit
      ∙ sym (covered-place _ (rejoin before after) p hit)
  | inr miss ↦
      place_at-rejoin before _ after p (missed-place (new_on_disk o l f) after p miss)
      ∙ sym (missed-place (new_on_disk o l f) (rejoin before after) p miss)
]

rejoin-new_left :
    (o ofs : ℕ) (before xs : List SegsChunk)
    → rejoin (new_left o ofs ++ before) xs ≡ rejoin before (new_left o ofs ++ xs)
unfolding new_left
rejoin-new_left o ofs before xs = elim (Bool-cases (ltb o ofs)) [
  | inl h ↦ rw h refl
  | inr h ↦ rw h refl
]

-- The sides that stay say what the overlapped chunk said.
cut-place :
    (o l ofs len f : ℕ) (xs : List SegsChunk) (p : ℕ)
    → o ≤ ofs
    → ofs ≤ o + l
    → place_at (new_left o ofs ++ (new_on_disk ofs len f ∷ (new_right (o + l) (ofs + len) ++ xs))) p
      ≡ place_at (new_on_disk ofs len f ∷ new o l ∷ xs) p
unfolding new_left new_right place_at covers place_in
cut-place o l ofs len f xs p h1 h2 = ground arith

cut_endless-place :
    (o ofs len f : ℕ) (xs : List SegsChunk) (p : ℕ)
    → o ≤ ofs
    → place_at (new_left o ofs ++ (new_on_disk ofs len f ∷ new_endless (ofs + len) ∷ xs)) p
      ≡ place_at (new_on_disk ofs len f ∷ new_endless o ∷ xs) p
unfolding new_left place_at covers place_in
cut_endless-place o ofs len f xs p h = ground arith

EndsBy-le : (c : SegsChunk) (ofs : ℕ) → EndsBy ofs c → this_ver_ofs c ≤ ofs
unfolding ends_by
EndsBy-le (new_endless o) ofs h = cc h
EndsBy-le (new o l) ofs h = ground arith
EndsBy-le (base o l b) ofs h = ground arith
EndsBy-le (new_on_disk o l f) ofs h = ground arith
EndsBy-le (base_on_disk o l b f) ofs h = ground arith

-- What the new bytes lie over, with what was before and after them.
overlapped-Shows :
    (before sides xs : List SegsChunk) (o ofs len f : ℕ)
    → ((p : ℕ)
        → place_at (new_left o ofs ++ (new_on_disk ofs len f ∷ sides)) p
          ≡ place_at (new_on_disk ofs len f ∷ xs) p)
    → All (EndsBy ofs) before
    → Shows
        (new_on_disk ofs len f ∷ rejoin before xs)
        (insert_or_merge_chunk_at (new_left o ofs ++ before) sides (new_on_disk ofs len f))
overlapped-Shows before sides xs o ofs len f same all =
    Shows-same _ _ _
      (λ p.
        ap (λ (t : List SegsChunk). place_at t p) (rejoin-new_left o ofs before _)
        ∙ place_at-rejoin before _ _ p (same p)
        ∙ swapped-place before xs ofs len f all p)
      (insert-Shows (new_left o ofs ++ before) sides ofs len f)

cut_for_new-Shows :
    (c : SegsChunk) (before after : List SegsChunk) (ofs len f : ℕ)
    → IsWritable ofs (ofs + len) c
    → leb (ofs + len) (this_ver_ofs c) ≡ false
    → ends_by c ofs ≡ false
    → All (EndsBy (this_ver_ofs c)) before
    → Shows
        (new_on_disk ofs len f ∷ rejoin (c ∷ before) after)
        (cut_for_new c before after ofs len f)
unfolding cut_for_new IsWritable ends_by
cut_for_new-Shows (new o l) before after ofs len f can h1 h2 all =
    overlapped-Shows before _ (new o l ∷ after) o ofs len f
      (λ p. cut-place o l ofs len f after p (ground arith) (ground arith))
      (All-EndsBy-mono o ofs before (ground arith) all)
cut_for_new-Shows (new_endless o) before after ofs len f can h1 h2 all =
    overlapped-Shows before _ (new_endless o ∷ after) o ofs len f
      (λ p. cut_endless-place o ofs len f after p (ground arith))
      (All-EndsBy-mono o ofs before (ground arith) all)
cut_for_new-Shows (base o l b) before after ofs len f can h1 h2 all = absurd (ground arith)
cut_for_new-Shows (new_on_disk o l g) before after ofs len f can h1 h2 all = absurd (ground arith)
cut_for_new-Shows (base_on_disk o l b g) before after ofs len f can h1 h2 all =
    absurd (ground arith)

-- The chunks that come out show the new bytes in front of all that was.
add_new_loop-Shows :
    (before after : List SegsChunk) (ofs len f : ℕ)
    → IsStacked before
    → All (IsWritable ofs (ofs + len)) before
    → Shows (new_on_disk ofs len f ∷ rejoin before after) (add_new_loop before after ofs len f)
unfolding add_new_loop IsStacked
add_new_loop-Shows [] after ofs len f stacked writable = insert-Shows [] after ofs len f
add_new_loop-Shows (c ∷ before) after ofs len f (all, stacked) (can, writable) =
    if_cases (Shows (new_on_disk ofs len f ∷ rejoin (c ∷ before) after))
      (leb (ofs + len) (this_ver_ofs c))
      (λ passed. add_new_loop-Shows before (c ∷ after) ofs len f stacked writable)
      (λ not_passed.
        if_cases (Shows (new_on_disk ofs len f ∷ rejoin (c ∷ before) after)) (ends_by c ofs)
          (λ ended.
            Shows-same _ _ _
              (swapped-place (c ∷ before) after ofs len f
                (ended, All-EndsBy-mono _ ofs before (EndsBy-le c ofs ended) all))
              (insert-Shows (c ∷ before) after ofs len f))
          (λ overlap. cut_for_new-Shows c before after ofs len f can not_passed overlap all))

-- `addNewSegsChunkTo` returns for ordered chunks, of which the new bytes overlap only ones that are
-- not on disk and that start no later than the new bytes do. Then the new bytes are where they
-- have been written, and every other byte is where it was.
pub add_new_segs_chunk_to-Shows :
    (cs : List SegsChunk) (ofs len f : ℕ)
    → IsOrdered 0 cs
    → All (IsWritable ofs (ofs + len)) cs
    → Shows (new_on_disk ofs len f ∷ cs) (add_new_segs_chunk_to cs ofs len f)
unfolding add_new_segs_chunk_to IsStacked
add_new_segs_chunk_to-Shows cs ofs len f o writable =
    Shows-same _ _ _
      (λ p.
        ap (λ (t : List SegsChunk). place_at (new_on_disk ofs len f ∷ t) p)
          (rejoin-backwards [] cs))
      (add_new_loop-Shows (backwards [] cs) [] ofs len f (backwards-IsStacked [] cs 0 o tt tt)
        (All-backwards (IsWritable ofs (ofs + len)) [] cs tt writable))
