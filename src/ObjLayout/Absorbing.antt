-- ===== src/ObjLayout/Absorbing.antt =====
-- `calcBaseAbsorptionParams` of ts-code/lib-common/objs-on-disk/file-layout.ts: one chunk.
use core_3nweb_client_lib.Base.{
  ℕ, ◌+◌, ◌-◌, ◌≤◌, ◌<◌, min, ◌≡◌, refl, sym, ap, subst, ◌∙◌, arith, false, List, [], ◌∷◌, All,
  Option, some, ◌==◌, leb, ltb, Outcome, ok, if_cases, Bool-cases, ◌>>=◌, inl, inr,
}
use core_3nweb_client_lib.SegsChunk.{SegsChunk, new_endless, new, base, new_on_disk, base_on_disk}
use core_3nweb_client_lib.LayoutChunks.{LayoutError}
use core_3nweb_client_lib.LayoutChunks.Places.{
  on_disk, of_base, place_at, place_in, covers, missed-place, IsTiling, total_len,
}
use core_3nweb_client_lib.ObjLayout.Params.{
  Absorbed, absorb_copied, absorb_referred, nothing_more, absorb_loop,
}
use core_3nweb_client_lib.ObjLayout.Bytes.{read_place, read_byte, IsCopied, IsPlain}

piece-place :
    (ofs len dst : ℕ) (rs : List SegsChunk) (i : ℕ)
    → i < len
    → place_at (new_on_disk ofs len dst ∷ rs) (ofs + i) ≡ some (on_disk (dst + i))
unfolding place_at covers place_in
piece-place ofs len dst rs i h = ground arith

base_piece-place :
    (ofs len b : ℕ) (rs : List SegsChunk) (i : ℕ)
    → i < len
    → place_at (base ofs len b ∷ rs) (ofs + i) ≡ some (of_base (b + i))
unfolding place_at covers place_in
base_piece-place ofs len b rs i h = ground arith

after_piece-place :
    (c : SegsChunk) (ofs len : ℕ) (rs : List SegsChunk) (i : ℕ)
    → covers c (ofs + i) ≡ false
    → len ≤ i
    → place_at (c ∷ rs) (ofs + i) ≡ place_at rs (ofs + len + (i - len))
after_piece-place c ofs len rs i miss h =
    missed-place c rs (ofs + i) miss ∙ ap (λ (p : ℕ). place_at rs p) (omega arith)

module _ {B : Type 0} (src_file dst_file : ℕ → B) (deep : ℕ → Option B) where
  -- `n` bytes from `ofs` on are read from the replacements as they are from `cs` at `start`.
  unfoldable pub IsAbsorbed : List SegsChunk → ℕ → ℕ → ℕ → Absorbed → Type 0
  IsAbsorbed cs start ofs n a =
      IsTiling ofs a.replacements
      × All IsPlain a.replacements
      × (total_len a.replacements ≡ n)
      × (IsCopied a.copy_ops src_file dst_file
          → (i : ℕ) → i < n
          → read_byte a.replacements dst_file deep (ofs + i)
            ≡ read_byte cs src_file deep (start + i))

  nothing_more-IsAbsorbed :
      (cs : List SegsChunk) (start ofs dst : ℕ) → IsAbsorbed cs start ofs 0 (nothing_more dst)
  unfolding IsAbsorbed nothing_more IsTiling total_len
  nothing_more-IsAbsorbed cs start ofs dst = (tt, tt, refl, λ copied i below. absurd (omega arith))

  -- A piece in front of an absorbed rest.
  copied-IsAbsorbed :
      (cs : List SegsChunk) (start ofs len n src dst : ℕ) (rest : Absorbed)
      → ((i : ℕ) → i < len → place_at cs (start + i) ≡ some (on_disk (src + i)))
      → IsAbsorbed cs (start + len) (ofs + len) n rest
      → IsAbsorbed cs start ofs (len + n) (absorb_copied ofs len src dst rest)
  unfolding IsAbsorbed absorb_copied IsPlain IsTiling total_len IsCopied read_byte read_place covers
  copied-IsAbsorbed cs start ofs len n src dst rest at (tiling, plain, total, same) = (
    (refl, tiling),
    (tt, plain),
    omega arith,
    λ (copied, later_copied) i below. elim (Bool-cases (ltb i len)) [
      | inl here ↦
          ap (read_place dst_file deep) (piece-place ofs len dst rest.replacements i (ground arith))
          ∙ ap some (copied i (ground arith))
          ∙ sym (ap (read_place src_file deep) (at i (ground arith)))
      | inr later ↦
          ap (read_place dst_file deep) (
            after_piece-place (new_on_disk ofs len dst) ofs len rest.replacements i (ground arith)
              (ground arith))
          ∙ same later_copied (i - len) (ground arith)
          ∙ ap (read_byte cs src_file deep) (ground arith)
    ],
  )

  referred-IsAbsorbed :
      (cs : List SegsChunk) (start ofs len n b : ℕ) (rest : Absorbed)
      → ((i : ℕ) → i < len → place_at cs (start + i) ≡ some (of_base (b + i)))
      → IsAbsorbed cs (start + len) (ofs + len) n rest
      → IsAbsorbed cs start ofs (len + n) (absorb_referred ofs len b rest)
  unfolding IsAbsorbed absorb_referred IsPlain IsTiling total_len read_byte read_place covers
  referred-IsAbsorbed cs start ofs len n b rest at (tiling, plain, total, same) = (
    (refl, tiling),
    (tt, plain),
    omega arith,
    λ copied i below. elim (Bool-cases (ltb i len)) [
      | inl here ↦
          ap (read_place dst_file deep)
            (base_piece-place ofs len b rest.replacements i (ground arith))
          ∙ sym (ap (read_place src_file deep) (at i (ground arith)))
      | inr later ↦
          ap (read_place dst_file deep) (
            after_piece-place (base ofs len b) ofs len rest.replacements i (ground arith)
              (ground arith))
          ∙ same copied (i - len) (ground arith)
          ∙ ap (read_byte cs src_file deep) (ground arith)
    ],
  )

  along-IsAbsorbed :
      (c : SegsChunk) (cs : List SegsChunk) (start ofs n : ℕ) (a : Absorbed)
      → ((i : ℕ) → covers c (start + i) ≡ false)
      → IsAbsorbed cs start ofs n a
      → IsAbsorbed (c ∷ cs) start ofs n a
  unfolding IsAbsorbed read_byte
  along-IsAbsorbed c cs start ofs n a missed (tiling, plain, total, same) = (
    tiling,
    plain,
    total,
    λ copied i below.
        same copied i below
        ∙ sym (ap (read_place src_file deep) (missed-place c cs (start + i) (missed i))),
  )

  -- Bytes of the base that its chunks cover are absorbed.
  unfoldable pub Absorbs : List SegsChunk → ℕ → ℕ → ℕ → Outcome LayoutError Absorbed → Type 0
  Absorbs cs start ofs n r = (a : Absorbed) × (r ≡ ok a) × IsAbsorbed cs start ofs n a

  copied-Absorbs :
      (o l f : ℕ) (cs : List SegsChunk) (start ofs len n dst : ℕ) (r : Outcome LayoutError Absorbed)
      → o ≤ start
      → start + len ≡ o + l
      → Absorbs cs (start + len) (ofs + len) n r
      → Absorbs
          (new_on_disk o l f ∷ cs)
          start
          ofs
          (len + n)
          (r >>= λ rest. ok (absorb_copied ofs len ((f + start) - o) dst rest))
  unfolding Absorbs place_at covers place_in
  copied-Absorbs o l f cs start ofs len n dst r h1 h2 (rest, e, absorbed) = (
    absorb_copied ofs len ((f + start) - o) dst rest,
    rw e refl,
    copied-IsAbsorbed (new_on_disk o l f ∷ cs) start ofs len n ((f + start) - o) dst rest
        (λ i below. ground arith)
        (along-IsAbsorbed (new_on_disk o l f) cs (start + len) (ofs + len) n rest
          (λ i. ground arith) absorbed),
  )

  referred-Absorbs :
      (o l b : ℕ) (cs : List SegsChunk) (start ofs len n : ℕ) (r : Outcome LayoutError Absorbed)
      → o ≤ start
      → start + len ≡ o + l
      → Absorbs cs (start + len) (ofs + len) n r
      → Absorbs
          (base o l b ∷ cs)
          start
          ofs
          (len + n)
          (r >>= λ rest. ok (absorb_referred ofs len ((b + start) - o) rest))
  unfolding Absorbs place_at covers place_in
  referred-Absorbs o l b cs start ofs len n r h1 h2 (rest, e, absorbed) = (
    absorb_referred ofs len ((b + start) - o) rest,
    rw e refl,
    referred-IsAbsorbed (base o l b ∷ cs) start ofs len n ((b + start) - o) rest
        (λ i below. ground arith)
        (along-IsAbsorbed (base o l b) cs (start + len) (ofs + len) n rest (λ i. ground arith)
          absorbed),
  )

  -- The last piece that is needed, after which nothing of the base is looked at.
  last_copied-Absorbs :
      (o l f : ℕ) (cs : List SegsChunk) (start ofs len dst : ℕ)
      → o ≤ start
      → start + len ≤ o + l
      → Absorbs
          (new_on_disk o l f ∷ cs)
          start
          ofs
          (len + 0)
          (ok (absorb_copied ofs len ((f + start) - o) dst (nothing_more (dst + len))))
  unfolding Absorbs place_at covers place_in
  last_copied-Absorbs o l f cs start ofs len dst h1 h2 = (
    absorb_copied ofs len ((f + start) - o) dst (nothing_more (dst + len)),
    refl,
    copied-IsAbsorbed (new_on_disk o l f ∷ cs) start ofs len 0 ((f + start) - o) dst _
        (λ i below. ground arith)
        (nothing_more-IsAbsorbed (new_on_disk o l f ∷ cs) (start + len) (ofs + len) (dst + len)),
  )

  last_referred-Absorbs :
      (o l b : ℕ) (cs : List SegsChunk) (start ofs len dst : ℕ)
      → o ≤ start
      → start + len ≤ o + l
      → Absorbs
          (base o l b ∷ cs)
          start
          ofs
          (len + 0)
          (ok (absorb_referred ofs len ((b + start) - o) (nothing_more dst)))
  unfolding Absorbs place_at covers place_in
  last_referred-Absorbs o l b cs start ofs len dst h1 h2 = (
    absorb_referred ofs len ((b + start) - o) (nothing_more dst),
    refl,
    referred-IsAbsorbed (base o l b ∷ cs) start ofs len 0 ((b + start) - o) _
        (λ i below. ground arith)
        (nothing_more-IsAbsorbed (base o l b ∷ cs) (start + len) (ofs + len) dst),
  )

  along-Absorbs :
      (c : SegsChunk) (cs : List SegsChunk) (start ofs n : ℕ) (r : Outcome LayoutError Absorbed)
      → ((i : ℕ) → covers c (start + i) ≡ false)
      → Absorbs cs start ofs n r
      → Absorbs (c ∷ cs) start ofs n r
  unfolding Absorbs
  along-Absorbs c cs start ofs n r missed (a, e, absorbed) =
      (a, e, along-IsAbsorbed c cs start ofs n a missed absorbed)

  pub Absorbs-count :
      (cs : List SegsChunk) (start ofs n m : ℕ) (r : Outcome LayoutError Absorbed)
      → n ≡ m
      → Absorbs cs start ofs n r
      → Absorbs cs start ofs m r
  Absorbs-count cs start ofs n m r e h = subst (λ k. Absorbs cs start ofs k r) e h

  -- The inner loop returns for a range that the chunks of the base cover.
  pub absorb_loop-Absorbs :
      (cs : List SegsChunk) (from start end ofs dst : ℕ)
      → IsTiling from cs
      → All IsPlain cs
      → from ≤ start
      → start ≤ end
      → end ≤ from + total_len cs
      → Absorbs cs start ofs (end - start) (absorb_loop cs start end ofs dst)
  unfolding absorb_loop Absorbs IsTiling IsPlain total_len covers
  absorb_loop-Absorbs [] from start end ofs dst t plain h1 h2 h3 =
      if_cases (Absorbs [] start ofs (end - start)) (start == end)
        (λ covered.
          Absorbs-count [] start ofs _ _ _ (ground arith)
            (nothing_more dst, refl, nothing_more-IsAbsorbed [] start ofs dst))
        (λ short. absurd (ground arith))
  absorb_loop-Absorbs (new_on_disk o l f ∷ cs) from start end ofs dst (at, t) (p, plain) h1 h2 h3 =
      if_cases (Absorbs (new_on_disk o l f ∷ cs) start ofs (end - start)) (leb (o + l) start)
        (λ before.
          along-Absorbs (new_on_disk o l f) cs start ofs _ _ (λ i. ground arith)
            (absorb_loop-Absorbs cs (from + l) start end ofs dst t plain (ground arith) h2
              (omega arith)))
        (λ reached.
          if_cases (Absorbs (new_on_disk o l f ∷ cs) start ofs (end - start)) (leb end (o + l))
            (λ enough. Absorbs-count _ start ofs _ _ _ (ground arith) (
              last_copied-Absorbs o l f cs start ofs (min end (o + l) - start) dst (ground arith)
                (ground arith)))
            (λ more. Absorbs-count _ start ofs _ _ _ (ground arith) (
              copied-Absorbs o l f cs start ofs (min end (o + l) - start)
                (end - (start + (min end (o + l) - start))) dst _ (ground arith) (ground arith)
                (absorb_loop-Absorbs cs (from + l) _ end _ _ t plain (ground arith) (ground arith)
                  (omega arith)))))
  absorb_loop-Absorbs (base o l b ∷ cs) from start end ofs dst (at, t) (p, plain) h1 h2 h3 =
      if_cases (Absorbs (base o l b ∷ cs) start ofs (end - start)) (leb (o + l) start)
        (λ before.
          along-Absorbs (base o l b) cs start ofs _ _ (λ i. ground arith)
            (absorb_loop-Absorbs cs (from + l) start end ofs dst t plain (ground arith) h2
              (omega arith)))
        (λ reached.
          if_cases (Absorbs (base o l b ∷ cs) start ofs (end - start)) (leb end (o + l))
            (λ enough. Absorbs-count _ start ofs _ _ _ (ground arith) (
              last_referred-Absorbs o l b cs start ofs (min end (o + l) - start) dst (ground arith)
                (ground arith)))
            (λ more. Absorbs-count _ start ofs _ _ _ (ground arith) (
              referred-Absorbs o l b cs start ofs (min end (o + l) - start)
                (end - (start + (min end (o + l) - start))) _ (ground arith) (ground arith)
                (absorb_loop-Absorbs cs (from + l) _ end _ _ t plain (ground arith) (ground arith)
                  (omega arith)))))
  absorb_loop-Absorbs (new o l ∷ cs) from start end ofs dst t (p, plain) h1 h2 h3 = absurd p
  absorb_loop-Absorbs (new_endless o ∷ cs) from start end ofs dst t (p, plain) h1 h2 h3 = absurd p
  absorb_loop-Absorbs (base_on_disk o l b f ∷ cs) from start end ofs dst t (p, plain) h1 h2 h3 =
      absurd p
