-- ===== src/ObjLayout/Bytes.antt =====
-- The bytes of a version, read from its file by the chunks of its layout, and from its base.
use core_3nweb_client_lib.Base.{ℕ, ◌+◌, ◌<◌, ◌≡◌, List, [], ◌∷◌, ◌++◌, All, Option, none, some}
use core_3nweb_client_lib.SegsChunk.{SegsChunk, base, new_on_disk}
use core_3nweb_client_lib.LayoutChunks.Places.{Place, on_disk, of_base, cached, unwritten, place_at}
use core_3nweb_client_lib.ObjLayout.Params.{ChunkCopyOp}

module _ {B : Type 0} where
  unfoldable pub read_place : (ℕ → B) → (ℕ → Option B) → Option Place → Option B
  read_place file of_the_base none = none
  read_place file of_the_base (some (on_disk d)) = some (file d)
  read_place file of_the_base (some (of_base q)) = of_the_base q
  read_place file of_the_base (some (cached q d)) = some (file d)
  read_place file of_the_base (some unwritten) = none

  -- The byte at `p` of a version with chunks `cs`, with its file and the bytes of its base.
  unfoldable pub read_byte : List SegsChunk → (ℕ → B) → (ℕ → Option B) → ℕ → Option B
  unfolding read_place
  read_byte cs file of_the_base p = read_place file of_the_base (place_at cs p)

  -- What the operations ask for has been copied from one file to another.
  unfoldable pub IsCopied : List ChunkCopyOp → (ℕ → B) → (ℕ → B) → Type 0
  IsCopied ops src dst =
      All
        (λ op.
          (i : ℕ) → i < op.copied_len → dst (op.ofs_in_dst_file + i) ≡ src (op.ofs_in_src_file + i))
        ops

  pub IsCopied-left :
      (xs ys : List ChunkCopyOp) (src dst : ℕ → B)
      → IsCopied (xs ++ ys) src dst
      → IsCopied xs src dst
  unfolding IsCopied
  IsCopied-left [] ys src dst all = tt
  IsCopied-left (x ∷ xs) ys src dst (p, all) = (p, IsCopied-left xs ys src dst all)

  pub IsCopied-right :
      (xs ys : List ChunkCopyOp) (src dst : ℕ → B)
      → IsCopied (xs ++ ys) src dst
      → IsCopied ys src dst
  unfolding IsCopied
  IsCopied-right [] ys src dst all = all
  IsCopied-right (x ∷ xs) ys src dst (p, all) = IsCopied-right xs ys src dst all

-- Chunks that `calcBaseAbsorptionParams` takes.
unfoldable pub IsPlain : SegsChunk → Type 0
IsPlain (new_on_disk o l f) = Unit
IsPlain (base o l b) = Unit
IsPlain c = ⊥
