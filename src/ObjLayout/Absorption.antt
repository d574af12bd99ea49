-- ===== src/ObjLayout/Absorption.antt =====
-- `calcBaseAbsorptionParams` and `applyAbsorptionParams` of
-- ts-code/lib-common/objs-on-disk/file-layout.ts: a version that takes in its base is still read
-- as it was.
use core_3nweb_client_lib.Base.{
  ℕ, ◌+◌, ◌-◌, ◌≤◌, ◌<◌, ◌≡◌, refl, sym, ap, subst, ◌∙◌, arith, true, List, [], ◌∷◌, ◌++◌, All,
  Option, none, some, ltb, Outcome, ok, ok_injective, Bool-cases, ◌>>=◌, inl, inr,
}
use core_3nweb_client_lib.SegsChunk.{SegsChunk, new_endless, new, base, new_on_disk, base_on_disk}
use core_3nweb_client_lib.LayoutChunks.{LayoutError}
use core_3nweb_client_lib.LayoutChunks.Places.{
  place_at, place_in, covers, covered-place, missed-place, IsTiling, total_len,
}
use core_3nweb_client_lib.ObjLayout.{ObjLayout, all_on_disk, is_file_complete}
use core_3nweb_client_lib.ObjLayout.Params.{
  Absorbed, AbsorptionParams, with_kept, with_absorbed, absorb_all, replace_chunks,
  calc_base_absorption_params, apply_absorption_params,
}
use core_3nweb_client_lib.ObjLayout.Bytes.{
  read_place, read_byte, IsCopied, IsCopied-left, IsCopied-right, IsPlain,
}
use core_3nweb_client_lib.ObjLayout.Absorbing.{
  IsAbsorbed, Absorbs, Absorbs-count, absorb_loop-Absorbs,
}

-- On the bytes that it is for a list of chunks is all that there is to see, and past them it is
-- as if it was not there.
within-place :
    (rs ys : List SegsChunk) (ofs p : ℕ)
    → IsTiling ofs rs
    → All IsPlain rs
    → ofs ≤ p
    → p < ofs + total_len rs
    → place_at (rs ++ ys) p ≡ place_at rs p
unfolding IsTiling IsPlain total_len place_at covers
within-place [] ys ofs p t plain h1 h2 = absurd (omega arith)
within-place (new_on_disk o l f ∷ rs) ys ofs p (at, t) (c, plain) h1 h2 =
    ground (arith, within-place rs ys (ofs + l) p t plain)
within-place (base o l b ∷ rs) ys ofs p (at, t) (c, plain) h1 h2 =
    ground (arith, within-place rs ys (ofs + l) p t plain)
within-place (new o l ∷ rs) ys ofs p t (c, plain) h1 h2 = absurd c
within-place (new_endless o ∷ rs) ys ofs p t (c, plain) h1 h2 = absurd c
within-place (base_on_disk o l b f ∷ rs) ys ofs p t (c, plain) h1 h2 = absurd c

past-place :
    (rs ys : List SegsChunk) (ofs p : ℕ)
    → IsTiling ofs rs
    → All IsPlain rs
    → ofs + total_len rs ≤ p
    → place_at (rs ++ ys) p ≡ place_at ys p
unfolding IsTiling IsPlain total_len place_at covers
past-place [] ys ofs p t plain h = refl
past-place (new_on_disk o l f ∷ rs) ys ofs p (at, t) (c, plain) h =
    ground (arith, past-place rs ys (ofs + l) p t plain)
past-place (base o l b ∷ rs) ys ofs p (at, t) (c, plain) h =
    ground (arith, past-place rs ys (ofs + l) p t plain)
past-place (new o l ∷ rs) ys ofs p t (c, plain) h = absurd c
past-place (new_endless o ∷ rs) ys ofs p t (c, plain) h = absurd c
past-place (base_on_disk o l b f ∷ rs) ys ofs p t (c, plain) h = absurd c

-- A chunk of the version lies in what its file holds, or in what its base holds.
unfoldable pub IsBacked : ℕ → ℕ → SegsChunk → Type 0
IsBacked bytes_end base_len (new_on_disk o l f) = f + l ≤ bytes_end
IsBacked bytes_end base_len (base o l b) = b + l ≤ base_len
IsBacked bytes_end base_len c = ⊥

plain_complete : (cs : List SegsChunk) → All IsPlain cs → all_on_disk cs ≡ true
unfolding IsPlain all_on_disk
plain_complete [] all = refl
plain_complete (new_on_disk o l f ∷ cs) (c, all) = plain_complete cs all
plain_complete (base o l b ∷ cs) (c, all) = plain_complete cs all
plain_complete (new o l ∷ cs) (c, all) = absurd c
plain_complete (new_endless o ∷ cs) (c, all) = absurd c
plain_complete (base_on_disk o l b f ∷ cs) (c, all) = absurd c

backed_complete : (m n : ℕ) (cs : List SegsChunk) → All (IsBacked m n) cs → all_on_disk cs ≡ true
unfolding IsBacked all_on_disk
backed_complete m n [] all = refl
backed_complete m n (new_on_disk o l f ∷ cs) (c, all) = backed_complete m n cs all
backed_complete m n (base o l b ∷ cs) (c, all) = backed_complete m n cs all
backed_complete m n (new o l ∷ cs) (c, all) = absurd c
backed_complete m n (new_endless o ∷ cs) (c, all) = absurd c
backed_complete m n (base_on_disk o l b f ∷ cs) (c, all) = absurd c

module _ {B : Type 0} (own_file src_file dst_file : ℕ → B) (deep : ℕ → Option B) where
  abbrev of_the_base : List SegsChunk → ℕ → Option B
  of_the_base base_chunks p = read_byte base_chunks src_file deep p

  -- If the copying is done, and the file keeps its first `bytes_end` bytes, then the chunks are
  -- read as they were.
  unfoldable pub Rereads : List SegsChunk → ℕ → ℕ → List SegsChunk → AbsorptionParams → Type 0
  unfolding replace_chunks
  Rereads base_chunks bytes_end from cs params =
      IsCopied params.all_copy_ops src_file dst_file
      → ((d : ℕ) → d < bytes_end → dst_file d ≡ own_file d)
      → (p : ℕ) → from ≤ p
      → read_byte (replace_chunks params.chunk_replacements cs) dst_file deep p
        ≡ read_byte cs own_file (of_the_base base_chunks) p

  kept-Rereads :
      (bs : List SegsChunk) (bytes_end o l f : ℕ) (cs : List SegsChunk) (params : AbsorptionParams)
      → f + l ≤ bytes_end
      → Rereads bs bytes_end (o + l) cs params
      → Rereads bs bytes_end o (new_on_disk o l f ∷ cs) (with_kept params)
  unfolding Rereads with_kept replace_chunks read_byte read_place covers place_in
  kept-Rereads bs bytes_end o l f cs params held same copied kept p h =
      elim (Bool-cases (ltb p (o + l))) [
        | inl here ↦
            ap (read_place dst_file deep) (covered-place (new_on_disk o l f) _ p (ground arith))
            ∙ ap some (kept (f + (p - o)) (ground arith))
            ∙ sym (
                ap (read_place own_file (of_the_base bs))
                  (covered-place (new_on_disk o l f) cs p (ground arith)))
        | inr later ↦
            ap (read_place dst_file deep) (missed-place (new_on_disk o l f) _ p (ground arith))
            ∙ same copied kept p (ground arith)
            ∙ sym (
                ap (read_place own_file (of_the_base bs))
                  (missed-place (new_on_disk o l f) cs p (ground arith)))
      ]

  absorbed-Rereads :
      (bs : List SegsChunk) (bytes_end o l b : ℕ) (cs : List SegsChunk) (a : Absorbed)
      (params : AbsorptionParams)
      → IsAbsorbed src_file dst_file deep bs b o l a
      → Rereads bs bytes_end (o + l) cs params
      → Rereads bs bytes_end o (base o l b ∷ cs) (with_absorbed a params)
  unfolding Rereads with_absorbed replace_chunks read_byte read_place covers place_in IsAbsorbed
  absorbed-Rereads bs bytes_end o l b cs a params (tiling, plain, total, absorbed) same copied kept
        p h =
      elim (Bool-cases (ltb p (o + l))) [
        | inl here ↦
            ap (read_place dst_file deep) (
              within-place a.replacements _ o p tiling plain h (ground arith)
              ∙ ap (λ (t : ℕ). place_at a.replacements t) (ground arith))
            ∙ absorbed (IsCopied-left a.copy_ops params.all_copy_ops src_file dst_file copied)
                (p - o) (ground arith)
            ∙ sym (
                ap (read_place own_file (of_the_base bs))
                  (covered-place (base o l b) cs p (ground arith)))
        | inr later ↦
            ap (read_place dst_file deep)
              (past-place a.replacements _ o p tiling plain (ground arith))
            ∙ same (IsCopied-right a.copy_ops params.all_copy_ops src_file dst_file copied) kept p
                (ground arith)
            ∙ sym (
                ap (read_place own_file (of_the_base bs))
                  (missed-place (base o l b) cs p (ground arith)))
      ]

  -- All is absorbed.
  unfoldable pub AllAbsorbs :
      List SegsChunk → ℕ → ℕ → List SegsChunk → Outcome LayoutError AbsorptionParams → Type 0
  AllAbsorbs bs bytes_end from cs r =
      (params : AbsorptionParams) × (r ≡ ok params) × Rereads bs bytes_end from cs params

  kept-AllAbsorbs :
      (bs : List SegsChunk) (bytes_end o l f : ℕ) (cs : List SegsChunk)
      (r : Outcome LayoutError AbsorptionParams)
      → f + l ≤ bytes_end
      → AllAbsorbs bs bytes_end (o + l) cs r
      → AllAbsorbs bs bytes_end o (new_on_disk o l f ∷ cs) (r >>= λ rest. ok (with_kept rest))
  unfolding AllAbsorbs
  kept-AllAbsorbs bs bytes_end o l f cs r held (params, e, same) =
      (with_kept params, rw e refl, kept-Rereads bs bytes_end o l f cs params held same)

  absorbed-AllAbsorbs :
      (bs : List SegsChunk) (bytes_end o l b : ℕ) (cs : List SegsChunk)
      (first : Outcome LayoutError Absorbed) (next : ℕ → Outcome LayoutError AbsorptionParams)
      → Absorbs src_file dst_file deep bs b o l first
      → ((dst : ℕ) → AllAbsorbs bs bytes_end (o + l) cs (next dst))
      → AllAbsorbs bs bytes_end o
          (base o l b ∷ cs)
          (first >>= λ a. next a.new_bytes_end >>= λ rest. ok (with_absorbed a rest))
  unfolding AllAbsorbs Absorbs
  absorbed-AllAbsorbs bs bytes_end o l b cs first next (a, e, absorbed) rest_absorbs =
      let (params, e', same) = rest_absorbs a.new_bytes_end in
      (
        with_absorbed a params,
        rw e (rw e' refl),
        absorbed-Rereads bs bytes_end o l b cs a params absorbed same,
      )

  AllAbsorbs-from :
      (bs : List SegsChunk) (bytes_end from from' : ℕ) (cs : List SegsChunk)
      (r : Outcome LayoutError AbsorptionParams)
      → from ≡ from'
      → AllAbsorbs bs bytes_end from cs r
      → AllAbsorbs bs bytes_end from' cs r
  AllAbsorbs-from bs bytes_end from from' cs r e h = subst (λ u. AllAbsorbs bs bytes_end u cs r) e h

  none-AllAbsorbs :
      (base_layout : ObjLayout) (bytes_end from dst : ℕ)
      → AllAbsorbs base_layout.segs_chunks bytes_end from [] (absorb_all [] base_layout dst)
  unfolding absorb_all AllAbsorbs Rereads replace_chunks read_byte read_place place_at
  none-AllAbsorbs base_layout bytes_end from dst = (_, refl, λ copied kept p h. refl)

  pub absorb_all-AllAbsorbs :
      (cs : List SegsChunk) (base_layout : ObjLayout) (bytes_end from dst : ℕ)
      → IsTiling 0 base_layout.segs_chunks
      → All IsPlain base_layout.segs_chunks
      → IsTiling from cs
      → All (IsBacked bytes_end (total_len base_layout.segs_chunks)) cs
      → AllAbsorbs base_layout.segs_chunks bytes_end from cs (absorb_all cs base_layout dst)
  unfolding absorb_all IsTiling IsBacked
  absorb_all-AllAbsorbs [] base_layout bytes_end from dst tb pb t backed =
      none-AllAbsorbs base_layout bytes_end from dst
  absorb_all-AllAbsorbs (new_on_disk o l f ∷ cs) base_layout bytes_end from dst tb pb (at, t)
        (c, backed) =
      AllAbsorbs-from base_layout.segs_chunks bytes_end o from (new_on_disk o l f ∷ cs) _ at (
        kept-AllAbsorbs base_layout.segs_chunks bytes_end o l f cs _ c (
          absorb_all-AllAbsorbs cs base_layout bytes_end (o + l) dst tb pb
            (subst (λ u. IsTiling (u + l) cs) (sym at) t) backed))
  absorb_all-AllAbsorbs (base o l b ∷ cs) base_layout bytes_end from dst tb pb (at, t) (c, backed) =
      AllAbsorbs-from base_layout.segs_chunks bytes_end o from (base o l b ∷ cs) _ at (
        absorbed-AllAbsorbs base_layout.segs_chunks bytes_end o l b cs _ _
          (Absorbs-count src_file dst_file deep base_layout.segs_chunks b o _ _ _ (omega arith) (
            absorb_loop-Absorbs src_file dst_file deep base_layout.segs_chunks 0 b (b + l) o dst tb
              pb (omega arith) (omega arith) (omega arith)))
          (λ dst'.
            absorb_all-AllAbsorbs cs base_layout bytes_end (o + l) dst' tb pb
              (subst (λ u. IsTiling (u + l) cs) (sym at) t) backed))
  absorb_all-AllAbsorbs (new o l ∷ cs) base_layout bytes_end from dst tb pb t (c, backed) = absurd c
  absorb_all-AllAbsorbs (new_endless o ∷ cs) base_layout bytes_end from dst tb pb t (c, backed) =
      absurd c
  absorb_all-AllAbsorbs (base_on_disk o l b f ∷ cs) base_layout bytes_end from dst tb pb t
        (c, backed) =
      absurd c

  absorbs_layout :
      (l base_layout : ObjLayout)
      → IsTiling 0 base_layout.segs_chunks
      → All IsPlain base_layout.segs_chunks
      → IsTiling 0 l.segs_chunks
      → All (IsBacked l.bytes_end (total_len base_layout.segs_chunks)) l.segs_chunks
      → AllAbsorbs base_layout.segs_chunks l.bytes_end 0 l.segs_chunks
          (calc_base_absorption_params l base_layout)
  unfolding calc_base_absorption_params is_file_complete
  absorbs_layout l base_layout tb pb t backed = rw (backed_complete _ _ l.segs_chunks backed) (
      rw (plain_complete base_layout.segs_chunks pb)
        (absorb_all-AllAbsorbs l.segs_chunks base_layout l.bytes_end 0 l.bytes_end tb pb t backed))

  -- The version's own and its base's layouts have chunks one after another from 0 on, either on
  -- disk or of the base; the version's chunks lie within its file and within its base. If what
  -- `calcBaseAbsorptionParams` returns to be copied is copied to a file that keeps what it had, then
  -- every byte is read by the layout that absorbs the base as it was read from the version's file
  -- and its base.
  pub apply_absorption_params-calc_base_absorption_params :
      (l base_layout : ObjLayout) (params : AbsorptionParams)
      → IsTiling 0 base_layout.segs_chunks
      → All IsPlain base_layout.segs_chunks
      → IsTiling 0 l.segs_chunks
      → All (IsBacked l.bytes_end (total_len base_layout.segs_chunks)) l.segs_chunks
      → calc_base_absorption_params l base_layout ≡ ok params
      → IsCopied params.all_copy_ops src_file dst_file
      → ((d : ℕ) → d < l.bytes_end → dst_file d ≡ own_file d)
      → (p : ℕ)
      → read_byte (apply_absorption_params l params).segs_chunks dst_file deep p
        ≡ read_byte l.segs_chunks own_file (of_the_base base_layout.segs_chunks) p
  unfolding apply_absorption_params AllAbsorbs Rereads
  apply_absorption_params-calc_base_absorption_params l base_layout params tb pb t backed e copied
        kept p =
      let (params', e', same) = absorbs_layout l base_layout tb pb t backed in
      let same_params = ok_injective (sym e' ∙ e) in
      ap
        (λ (u : AbsorptionParams).
          read_byte (replace_chunks u.chunk_replacements l.segs_chunks) dst_file deep p)
        (sym same_params)
      ∙ same (subst (λ u. IsCopied u.all_copy_ops src_file dst_file) (sym same_params) copied) kept
          p (omega arith)

-- Under the same conditions on the layouts, `calcBaseAbsorptionParams` returns.
pub calc_base_absorption_params_returns :
    (l base_layout : ObjLayout)
    → IsTiling 0 base_layout.segs_chunks
    → All IsPlain base_layout.segs_chunks
    → IsTiling 0 l.segs_chunks
    → All (IsBacked l.bytes_end (total_len base_layout.segs_chunks)) l.segs_chunks
    → (params : AbsorptionParams) × (calc_base_absorption_params l base_layout ≡ ok params)
unfolding AllAbsorbs
calc_base_absorption_params_returns l base_layout tb pb t backed =
    let (params, e, same) =
      absorbs_layout {B = ℕ} (λ d. d) (λ d. d) (λ d. d) (λ q. none) l base_layout tb pb t backed in
    (params, e)
