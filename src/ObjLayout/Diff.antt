-- ===== src/ObjLayout/Diff.antt =====
-- `diffFromBase` of ts-code/lib-common/objs-on-disk/file-layout.ts, and `diffToLayout` of
-- ts-code/lib-common/objs-on-disk/utils.ts, which reads a diff back as a layout.
use core_3nweb_client_lib.Base.{
  ℕ, ◌+◌, ◌≡◌, refl, sym, ◌<◌, lt→ltb, ==_refl, true, List, [], ◌∷◌, map, some, ok, ◌==◌,
  if◌then◌else◌,
}
use core_3nweb_client_lib.SegsChunk.{SegsChunk, new_endless, new, base, new_on_disk, base_on_disk}
use core_3nweb_client_lib.LayoutChunks.{
  LayoutSection, base_section, new_section, sections_from, layout_sections_to_segs_chunks,
  layout_section_to_segs_chunk,
}
use core_3nweb_client_lib.LayoutChunks.Places.{IsTiling}
use core_3nweb_client_lib.ObjLayout.{ObjLayout, SectionsLayout, all_on_disk, is_file_complete}
use core_3nweb_client_lib.ObjLayout.Params.{
  DiffInfo, diff_sections_of, segs_size_of, new_segs_pack_order, diff_from_base,
}

pub sections_of_diff : ℕ → List (ℕ × ℕ × ℕ) → List LayoutSection
sections_of_diff ofs [] = []
sections_of_diff ofs ((is_new, base_ofs, len) ∷ ss) =
    (if is_new == 1 then new_section ofs (some len) else base_section ofs len base_ofs)
    ∷ sections_of_diff (ofs + len) ss

pub diff_to_layout : DiffInfo → SectionsLayout
unfolding sections_of_diff
diff_to_layout diff = record {
  sections = sections_of_diff 0 diff.diff_sections;
  base_of = some diff.diff_base_version;
}

-- What a diff tells of a chunk: whether its bytes are new, and where they are in the base.
pub off_disk : SegsChunk → SegsChunk
off_disk (base_on_disk o l b f) = base o l b
off_disk (new_on_disk o l f) = new o l
off_disk c = c

sections_from-sections_of_diff :
    (cs : List SegsChunk) (ofs : ℕ)
    → IsTiling ofs cs
    → all_on_disk cs ≡ true
    → sections_from ofs (sections_of_diff ofs (diff_sections_of cs)) ≡ ok (map off_disk cs)
unfolding sections_from sections_of_diff diff_sections_of IsTiling all_on_disk
    layout_section_to_segs_chunk off_disk
sections_from-sections_of_diff [] ofs t h = refl
sections_from-sections_of_diff (new o l ∷ cs) ofs t h = cc h
sections_from-sections_of_diff (new_endless o ∷ cs) ofs t h = cc h
sections_from-sections_of_diff (base o l b ∷ cs) ofs (at, t) h =
    rw (==_refl ofs) (rw at (rw (sections_from-sections_of_diff cs (ofs + l) t h) refl))
sections_from-sections_of_diff (new_on_disk o l f ∷ cs) ofs (at, t) h =
    rw (==_refl ofs) (rw at (rw (sections_from-sections_of_diff cs (ofs + l) t h) refl))
sections_from-sections_of_diff (base_on_disk o l b f ∷ cs) ofs (at, t) h =
    rw (==_refl ofs) (rw at (rw (sections_from-sections_of_diff cs (ofs + l) t h) refl))

-- For a complete file with a base other than 0, and with chunks one after another from 0 on,
-- `diffFromBase` returns, and its diff read back by `diffToLayout` is a layout with the same base
-- and with the same chunks, less their offsets in the file.
pub layout_sections_to_segs_chunks-diff_to_layout :
    (l : ObjLayout) (b : ℕ)
    → l.base_version ≡ some b
    → 0 < b
    → IsTiling 0 l.segs_chunks
    → is_file_complete l ≡ true
    → (diff : DiffInfo) × (diff_from_base l ≡ ok (diff, new_segs_pack_order l.segs_chunks))
      × (layout_sections_to_segs_chunks (diff_to_layout diff).sections
          ≡ ok (map off_disk l.segs_chunks))
      × ((diff_to_layout diff).base_of ≡ l.base_version)
unfolding diff_from_base is_file_complete layout_sections_to_segs_chunks diff_to_layout
layout_sections_to_segs_chunks-diff_to_layout l b has_base above tiling complete = (
  record {
    diff_base_version = b;
    diff_sections = diff_sections_of l.segs_chunks;
    segs_size = segs_size_of l.segs_chunks;
  },
  rw has_base (rw (lt→ltb 0 b above) (rw complete refl)),
  sections_from-sections_of_diff l.segs_chunks 0 tiling complete,
  sym has_base,
)
