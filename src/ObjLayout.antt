-- ===== src/ObjLayout.antt =====
-- The class `ObjVersionBytesLayout` of ts-code/lib-common/objs-on-disk/file-layout.ts: where the
-- bytes of an object's version lie in its file. A method that changes the layout gives the new one.
-- Offsets and lengths are natural numbers, so the assertions on them hold.
pub mod Params
pub mod Bytes
pub mod Absorbing
pub mod Absorption
pub mod Segments
pub mod Diff
mod Runs
use core_3nweb_client_lib.Base.{
  ℕ, zero, suc, ◌+◌, ◌-◌, min, Bool, true, false, not, ◌&&◌, Option, none, some, List, [], ◌∷◌,
  ◌++◌, leb, ◌==◌, truthy, if◌then◌else◌, Outcome, ok, throws, ◌>>=◌,
}
use core_3nweb_client_lib.SegsChunk.{
  SegsChunk, HeaderChunkInfo, new_endless, new, base, new_on_disk, base_on_disk, this_ver_ofs,
}
use core_3nweb_client_lib.V1Format.{Attrs}
use core_3nweb_client_lib.LayoutChunks.{
  LayoutError, assertion, frozen, not_implemented, second_header, two_endless, wrong_file_ofs,
  LayoutSection, layout_sections_to_segs_chunks, combine_chunks_on_disk_with_layout, len_of,
  ensure_no_holes_in, add_new_segs_chunk_to, add_base_segs_chunk_to, locations_loop,
}

pub record ObjLayout : Type 0 where
  pub bytes_end : ℕ
  pub header_chunk : Option HeaderChunkInfo
  pub segs_chunks : List SegsChunk
  pub base_version : Option ℕ
  pub segs_layout_frozen : Bool

-- `Layout`
pub record SectionsLayout : Type 0 where
  pub sections : List LayoutSection
  pub base_of : Option ℕ

-- `V1_FILE_START` is of four bytes.
unfoldable pub for_new_file : ObjLayout
for_new_file = record {
  bytes_end = 4 + 8;
  header_chunk = none;
  segs_chunks = [];
  base_version = none;
  segs_layout_frozen = false;
}

-- `fromV1Bytes`, given the attributes that the bytes hold.
unfoldable pub from_attrs : ℕ → Attrs SegsChunk → ObjLayout
from_attrs layout_ofs attrs = record {
  bytes_end = layout_ofs;
  header_chunk = attrs.header_chunk;
  segs_chunks = attrs.segs_chunks;
  base_version = attrs.base_version;
  segs_layout_frozen = attrs.segs_layout_frozen;
}

-- Of the last chunk and the one before it.
pub total_len_from : List SegsChunk → Outcome LayoutError ℕ
total_len_from [] = ok 0
total_len_from (new_endless o ∷ []) = ok 0
total_len_from (c ∷ []) = ok (this_ver_ofs c + len_of c)
total_len_from (new_endless a ∷ new_endless b ∷ []) = throws two_endless
total_len_from (c ∷ new_endless b ∷ []) = ok (this_ver_ofs c + len_of c)
total_len_from (c ∷ d ∷ cs) = total_len_from (d ∷ cs)

unfoldable pub get_total_segs_len : ObjLayout → Outcome LayoutError ℕ
unfolding total_len_from
get_total_segs_len l = total_len_from l.segs_chunks

pub ends_endless : List SegsChunk → Bool
ends_endless [] = false
ends_endless (new_endless o ∷ []) = true
ends_endless (c ∷ []) = false
ends_endless (c ∷ d ∷ cs) = ends_endless (d ∷ cs)

pub is_layout_endless : ObjLayout → Bool
unfolding ends_endless
is_layout_endless l = ends_endless l.segs_chunks

pub all_on_disk : List SegsChunk → Bool
all_on_disk [] = true
all_on_disk (new o len ∷ cs) = false
all_on_disk (new_endless o ∷ cs) = false
all_on_disk (c ∷ cs) = all_on_disk cs

pub is_file_complete : ObjLayout → Bool
unfolding all_on_disk
is_file_complete l = all_on_disk l.segs_chunks

pub segs_locations : ObjLayout → ℕ → ℕ → Outcome LayoutError (List SegsChunk)
unfolding locations_loop
segs_locations l ofs len = locations_loop l.segs_layout_frozen (ofs + len) l.segs_chunks ofs len

pub no_base_chunk : List SegsChunk → Bool
no_base_chunk [] = true
no_base_chunk (base o len b ∷ cs) = false
no_base_chunk (c ∷ cs) = no_base_chunk cs

pub are_all_base_bytes_in_this_file : ObjLayout → Bool
unfolding no_base_chunk
are_all_base_bytes_in_this_file l = elim l.base_version [
  | none ↦ false
  | some b ↦ no_base_chunk l.segs_chunks
]

-- The attributes that `toBytes` writes.
unfoldable pub to_attrs : ObjLayout → Attrs SegsChunk
unfolding are_all_base_bytes_in_this_file is_layout_endless is_file_complete
to_attrs l = record {
  file_complete = is_file_complete l;
  segs_chunks = l.segs_chunks;
  header_chunk = l.header_chunk;
  segs_layout_frozen = l.segs_layout_frozen;
  base_version = l.base_version;
  size_unknown = is_layout_endless l;
  all_base_bytes_in_file = are_all_base_bytes_in_this_file l;
}

-- The chunks are set before they are looked through for holes, and stay when one is found.
abbrev freeze_checked :
    Outcome LayoutError (Unit {0})
    → ObjLayout
    → SectionsLayout
    → ObjLayout × Outcome LayoutError (Unit {0})
freeze_checked (throws e) l layout = (l, throws e)
freeze_checked (ok u) l layout =
    (record l { base_version = layout.base_of; segs_layout_frozen = true }, ok tt)

abbrev freeze_combined :
    Outcome LayoutError (List SegsChunk)
    → ObjLayout
    → SectionsLayout
    → ObjLayout × Outcome LayoutError (Unit {0})
freeze_combined (throws e) l layout = (l, throws e)
freeze_combined (ok chunks) l layout =
    freeze_checked (ensure_no_holes_in chunks) (record l { segs_chunks = chunks }) layout

unfoldable pub set_and_freeze_with :
    ObjLayout → SectionsLayout → ObjLayout × Outcome LayoutError (Unit {0})
set_and_freeze_with l layout =
    if l.segs_layout_frozen
    then (l, throws frozen)
    else freeze_combined
        (layout_sections_to_segs_chunks layout.sections >>= λ chunks.
          combine_chunks_on_disk_with_layout chunks l.segs_chunks)
        l layout

abbrev without_last : List SegsChunk → List SegsChunk
without_last [] = []
without_last (c ∷ []) = []
without_last (c ∷ d ∷ cs) = c ∷ without_last (d ∷ cs)

unfoldable pub truncate_if_endless : ObjLayout → ObjLayout
unfolding is_layout_endless
truncate_if_endless l =
    if is_layout_endless l then record l { segs_chunks = without_last l.segs_chunks } else l

pub ensure_expected_file_ofs : ObjLayout → ℕ → Outcome LayoutError (Unit {0})
ensure_expected_file_ofs l file_ofs =
    if file_ofs == l.bytes_end then ok tt else throws wrong_file_ofs

unfoldable pub add_header : ObjLayout → ℕ → ℕ → Outcome LayoutError ObjLayout
unfolding ensure_expected_file_ofs
add_header l len file_ofs = do
  _ ← ensure_expected_file_ofs l file_ofs
  elim l.header_chunk [
    | some h ↦ throws second_header
    | none ↦ ok (record l {
      header_chunk = some (record { len = len; file_ofs = file_ofs });
      bytes_end = l.bytes_end + len;
    })
  ]

pub add_segs_on_file : ObjLayout → ℕ → ℕ → ℕ → Outcome LayoutError ObjLayout
unfolding ensure_expected_file_ofs
add_segs_on_file l ofs len file_ofs = do
  _ ← ensure_expected_file_ofs l file_ofs
  chunks ← add_new_segs_chunk_to l.segs_chunks ofs len file_ofs
  ok (record l { segs_chunks = chunks; bytes_end = l.bytes_end + len })

unfoldable pub add_base_segs_on_file : ObjLayout → ℕ → ℕ → ℕ → ℕ → Outcome LayoutError ObjLayout
unfolding ensure_expected_file_ofs
add_base_segs_on_file l ofs base_ofs len file_ofs = do
  _ ← ensure_expected_file_ofs l file_ofs
  chunks ← add_base_segs_chunk_to l.segs_chunks ofs base_ofs len file_ofs
  ok (record l { segs_chunks = chunks; bytes_end = l.bytes_end + len })
