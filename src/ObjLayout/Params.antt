-- ===== src/ObjLayout/Params.antt =====
-- Taking in of a base, `calcBaseAbsorptionParams` and `applyAbsorptionParams`, and `diffFromBase` of
-- ts-code/lib-common/objs-on-disk/file-layout.ts.
use core_3nweb_client_lib.Base.{
  ℕ, ◌+◌, ◌-◌, min, ◌&&◌, Option, none, some, List, [], ◌∷◌, ◌++◌, leb, ◌==◌, truthy, if◌then◌else◌,
  Outcome, ok, throws, ◌>>=◌,
}
use core_3nweb_client_lib.SegsChunk.{SegsChunk, base, new_on_disk, base_on_disk, this_ver_ofs}
use core_3nweb_client_lib.LayoutChunks.{LayoutError, assertion, not_implemented, len_of}
use core_3nweb_client_lib.ObjLayout.{ObjLayout, is_file_complete}

-- `ofsInSrcFile`, `len` and `ofsInDstFile`
pub record ChunkCopyOp : Type 0 where
  pub ofs_in_src_file : ℕ
  pub copied_len : ℕ
  pub ofs_in_dst_file : ℕ

-- The chunks that take the place of a base chunk, and the copying that they need.
pub record Absorbed : Type 0 where
  pub replacements : List SegsChunk
  pub copy_ops : List ChunkCopyOp
  pub new_bytes_end : ℕ

-- A piece of the base on disk is copied to the end of the file, and a piece of the base's own base
-- is referred to. `rest` is what follows the piece.
unfoldable pub absorb_copied : ℕ → ℕ → ℕ → ℕ → Absorbed → Absorbed
absorb_copied ofs len src dst rest = record {
  replacements = new_on_disk ofs len dst ∷ rest.replacements;
  copy_ops =
      record { ofs_in_src_file = src; copied_len = len; ofs_in_dst_file = dst } ∷ rest.copy_ops;
  new_bytes_end = rest.new_bytes_end;
}

unfoldable pub absorb_referred : ℕ → ℕ → ℕ → Absorbed → Absorbed
absorb_referred ofs len base_ofs rest = record rest {
  replacements = base ofs len base_ofs ∷ rest.replacements;
}

unfoldable pub nothing_more : ℕ → Absorbed
nothing_more dst = record { replacements = []; copy_ops = []; new_bytes_end = dst }

-- The inner loop of `calcBaseAbsorptionParams`: the bytes of the base from `start` to `end`, that
-- are at `ofs` of this version. `dst` is `newBytesEnd`. A base has no holes, so `start` is not below
-- the offset of a chunk that it is found to be under.
unfoldable pub absorb_loop : List SegsChunk → ℕ → ℕ → ℕ → ℕ → Outcome LayoutError Absorbed
unfolding absorb_copied absorb_referred nothing_more
absorb_loop [] start end ofs dst = if start == end then ok (nothing_more dst) else throws assertion
absorb_loop (new_on_disk o l f ∷ cs) start end ofs dst =
    let len = min end (o + l) - start in
    let skip = absorb_loop cs start end ofs dst in
    let next = absorb_loop cs (start + len) end (ofs + len) (dst + len) in
    if leb (o + l) start
    then skip
    else if leb end (o + l)
    then ok (absorb_copied ofs len ((f + start) - o) dst (nothing_more (dst + len)))
    else next >>= λ rest. ok (absorb_copied ofs len ((f + start) - o) dst rest)
absorb_loop (base o l b ∷ cs) start end ofs dst =
    let len = min end (o + l) - start in
    let skip = absorb_loop cs start end ofs dst in
    let next = absorb_loop cs (start + len) end (ofs + len) dst in
    if leb (o + l) start
    then skip
    else if leb end (o + l)
    then ok (absorb_referred ofs len ((b + start) - o) (nothing_more dst))
    else next >>= λ rest. ok (absorb_referred ofs len ((b + start) - o) rest)
absorb_loop (_ ∷ cs) start end ofs dst = throws not_implemented

-- The outer loop: for each chunk its replacements, where it has any.
pub record AbsorptionParams : Type 0 where
  pub chunk_replacements : List (Option (List SegsChunk))
  pub all_copy_ops : List ChunkCopyOp
  pub end_of_bytes : ℕ
  pub new_base : Option ℕ

unfoldable pub with_kept : AbsorptionParams → AbsorptionParams
with_kept rest = record rest { chunk_replacements = none ∷ rest.chunk_replacements }

unfoldable pub with_absorbed : Absorbed → AbsorptionParams → AbsorptionParams
with_absorbed a rest = record rest {
  chunk_replacements = some a.replacements ∷ rest.chunk_replacements;
  all_copy_ops = a.copy_ops ++ rest.all_copy_ops;
}

unfoldable pub absorb_all : List SegsChunk → ObjLayout → ℕ → Outcome LayoutError AbsorptionParams
unfolding with_kept with_absorbed absorb_loop
absorb_all [] base_layout dst = ok (record {
  chunk_replacements = [];
  all_copy_ops = [];
  end_of_bytes = dst;
  new_base = base_layout.base_version;
})
absorb_all (new_on_disk o l f ∷ cs) base_layout dst = do
  rest ← absorb_all cs base_layout dst
  ok (with_kept rest)
absorb_all (base o l b ∷ cs) base_layout dst = do
  a ← absorb_loop base_layout.segs_chunks b (b + l) o dst
  rest ← absorb_all cs base_layout a.new_bytes_end
  ok (with_absorbed a rest)
absorb_all (_ ∷ cs) base_layout dst = throws not_implemented

unfoldable pub calc_base_absorption_params :
    ObjLayout → ObjLayout → Outcome LayoutError AbsorptionParams
unfolding is_file_complete absorb_all
calc_base_absorption_params l base_layout =
    if is_file_complete l && is_file_complete base_layout
    then absorb_all l.segs_chunks base_layout l.bytes_end
    else throws assertion

unfoldable pub replace_chunks : List (Option (List SegsChunk)) → List SegsChunk → List SegsChunk
replace_chunks (none ∷ rs) (c ∷ cs) = c ∷ replace_chunks rs cs
replace_chunks (some new_segs ∷ rs) (c ∷ cs) = new_segs ++ replace_chunks rs cs
replace_chunks _ cs = cs

unfoldable pub apply_absorption_params : ObjLayout → AbsorptionParams → ObjLayout
unfolding replace_chunks
apply_absorption_params l params = record l {
  bytes_end = params.end_of_bytes;
  base_version = params.new_base;
  segs_chunks = replace_chunks params.chunk_replacements l.segs_chunks;
}

-- A section of `DiffInfo` is a triple; its first number is 1 for new bytes.
pub record DiffInfo : Type 0 where
  pub diff_base_version : ℕ
  pub diff_sections : List (ℕ × ℕ × ℕ)
  pub segs_size : ℕ

abbrev pub diff_section : SegsChunk → ℕ × ℕ × ℕ
diff_section (base o l b) = (0, b, l)
diff_section (base_on_disk o l b f) = (0, b, l)
diff_section c = (1, 0, len_of c)

unfoldable pub diff_sections_of : List SegsChunk → List (ℕ × ℕ × ℕ)
diff_sections_of [] = []
diff_sections_of (c ∷ cs) = diff_section c ∷ diff_sections_of cs

pub segs_size_of : List SegsChunk → ℕ
segs_size_of [] = 0
segs_size_of (c ∷ cs) = len_of c + segs_size_of cs

-- `newSegsPackOrder`: offsets and lengths of new bytes.
pub new_segs_pack_order : List SegsChunk → List (ℕ × ℕ)
new_segs_pack_order [] = []
new_segs_pack_order (base o l b ∷ cs) = new_segs_pack_order cs
new_segs_pack_order (base_on_disk o l b f ∷ cs) = new_segs_pack_order cs
new_segs_pack_order (c ∷ cs) = (this_ver_ofs c, len_of c) ∷ new_segs_pack_order cs

unfoldable pub diff_from_base : ObjLayout → Outcome LayoutError (DiffInfo × List (ℕ × ℕ))
unfolding is_file_complete diff_sections_of segs_size_of new_segs_pack_order
diff_from_base l =
    if truthy l.base_version && is_file_complete l
    then elim l.base_version [
      | none ↦ throws assertion
      | some b ↦ ok (
        record {
          diff_base_version = b;
          diff_sections = diff_sections_of l.segs_chunks;
          segs_size = segs_size_of l.segs_chunks;
        },
        new_segs_pack_order l.segs_chunks,
      )
    ]
    else throws assertion
