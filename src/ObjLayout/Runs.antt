-- ===== src/ObjLayout/Runs.antt =====
-- Runs of file-layout.ts, and its theorems at concrete inputs.
use core_3nweb_client_lib.Base.{
  ℕ, ◌+◌, ◌≡◌, refl, arith, [], ◌∷◌, true, false, none, some, ok, map, All, inl, Option, ◌↔◌,
}
use core_3nweb_client_lib.SegsChunk.{new_endless, new, base, new_on_disk, base_on_disk}
use core_3nweb_client_lib.LayoutChunks.{
  add_base_segs_chunk_to, insert_or_merge_chunk_at, merge_right, can_merge_chunks, grow,
  ensure_no_holes_in, layout_sections_to_segs_chunks,
}
use core_3nweb_client_lib.LayoutChunks.Places.{IsTiling, place_at, total_len}
use core_3nweb_client_lib.LayoutChunks.Locations.{Tiles}
use core_3nweb_client_lib.LayoutChunks.Lookup.{Locates}
use core_3nweb_client_lib.LayoutChunks.Zipper.{IsOrdered}
use core_3nweb_client_lib.LayoutChunks.NewBytes.{IsWritable}
use core_3nweb_client_lib.LayoutChunks.Holes.{ensure_no_holes_in-IsTiling}
use core_3nweb_client_lib.ObjLayout.{
  ObjLayout, for_new_file, segs_locations, add_segs_on_file, is_file_complete, all_on_disk,
}
use core_3nweb_client_lib.ObjLayout.Params.{
  DiffInfo, AbsorptionParams, diff_from_base, new_segs_pack_order, calc_base_absorption_params,
  apply_absorption_params,
}
use core_3nweb_client_lib.ObjLayout.Bytes.{read_byte, IsCopied, IsPlain}
use core_3nweb_client_lib.ObjLayout.Absorption.{
  IsBacked, apply_absorption_params-calc_base_absorption_params,
  calc_base_absorption_params_returns,
}
use core_3nweb_client_lib.ObjLayout.Segments.{
  segs_locations-Tiles, segs_locations-Locates, add_segs_on_file-Shows,
}
use core_3nweb_client_lib.ObjLayout.Diff.{
  diff_to_layout, off_disk, layout_sections_to_segs_chunks-diff_to_layout,
}

-- Ten bytes on disk, then ten of the base.
abbrev two_runs : ObjLayout
two_runs = record {
  bytes_end = 22;
  header_chunk = none;
  segs_chunks = new_on_disk 0 10 12 ∷ base 10 10 5 ∷ [];
  base_version = some 1;
  segs_layout_frozen = true;
}

abbrev its_base : ObjLayout
its_base = record {
  bytes_end = 30;
  header_chunk = none;
  segs_chunks = new_on_disk 0 8 12 ∷ new_on_disk 8 10 20 ∷ [];
  base_version = none;
  segs_layout_frozen = true;
}

-- A layout that is yet to be frozen, with a hole in front of bytes on disk.
abbrev after_hole : ObjLayout
after_hole = record {
  bytes_end = 22;
  header_chunk = none;
  segs_chunks = new_on_disk 10 10 12 ∷ [];
  base_version = none;
  segs_layout_frozen = false;
}

-- The chunk behind a hole is passed over: bytes that are on disk are said to be not written.
chunk_after_hole_missed : segs_locations after_hole 0 20 ≡ ok (new 0 10 ∷ new 10 10 ∷ [])
unfolding segs_locations
chunk_after_hole_missed = refl

-- A chunk of the base that is read to the disk is put at index 1.
base_chunk_misplaced :
    add_base_segs_chunk_to
      (new_on_disk 0 10 12 ∷ new_on_disk 10 10 40 ∷ base 20 10 0 ∷ [])
      20
      0
      10
      60
    ≡ ok (new_on_disk 0 10 12 ∷ base_on_disk 20 10 0 60 ∷ new_on_disk 10 10 40 ∷ [])
unfolding add_base_segs_chunk_to insert_or_merge_chunk_at merge_right can_merge_chunks
base_chunk_misplaced = refl

-- Chunks of the base that are not neighbours in it are merged.
far_base_chunks_merged :
    add_base_segs_chunk_to (base_on_disk 0 10 0 12 ∷ []) 10 90 10 22
    ≡ ok (base_on_disk 0 20 0 12 ∷ [])
unfolding add_base_segs_chunk_to insert_or_merge_chunk_at merge_right can_merge_chunks grow
far_base_chunks_merged = refl

two_runs-IsTiling : IsTiling 0 two_runs.segs_chunks
unfolding IsTiling
two_runs-IsTiling = (refl, (refl, tt))

segs_locations-Tiles_example : Tiles 0 20 (segs_locations after_hole 0 20)
segs_locations-Tiles_example = segs_locations-Tiles after_hole 0 20 refl

segs_locations-Locates_example :
    Locates true two_runs.segs_chunks 5 15 (segs_locations two_runs 5 10)
segs_locations-Locates_example =
    segs_locations-Locates two_runs 5 10 two_runs-IsTiling (omega arith)

-- An endless run of new bytes.
abbrev growing : ObjLayout
growing = record for_new_file { segs_chunks = new_endless 0 ∷ [] }

growing-IsOrdered : IsOrdered 0 growing.segs_chunks
unfolding IsOrdered
growing-IsOrdered = (omega arith, refl)

growing-IsWritable : All (IsWritable 4 (4 + 6)) growing.segs_chunks
unfolding IsWritable
growing-IsWritable = (inl (omega arith), tt)

add_segs_on_file-Shows_example :
    (l' : ObjLayout) × (add_segs_on_file growing 4 6 growing.bytes_end ≡ ok l')
    × (l'.bytes_end ≡ growing.bytes_end + 6)
    × ((p : ℕ)
        → place_at l'.segs_chunks p
          ≡ place_at (new_on_disk 4 6 growing.bytes_end ∷ growing.segs_chunks) p)
add_segs_on_file-Shows_example =
    add_segs_on_file-Shows growing 4 6 growing-IsOrdered growing-IsWritable

two_runs_complete : is_file_complete two_runs ≡ true
unfolding is_file_complete all_on_disk
two_runs_complete = refl

layout_sections_to_segs_chunks-diff_to_layout_example :
    (diff : DiffInfo) × (diff_from_base two_runs
      ≡ ok (diff, new_segs_pack_order two_runs.segs_chunks))
    × (layout_sections_to_segs_chunks (diff_to_layout diff).sections
        ≡ ok (map off_disk two_runs.segs_chunks))
    × ((diff_to_layout diff).base_of ≡ two_runs.base_version)
layout_sections_to_segs_chunks-diff_to_layout_example =
    layout_sections_to_segs_chunks-diff_to_layout two_runs 1 refl (omega arith) two_runs-IsTiling
      two_runs_complete

its_base-IsTiling : IsTiling 0 its_base.segs_chunks
unfolding IsTiling
its_base-IsTiling = (refl, (refl, tt))

its_base-IsPlain : All IsPlain its_base.segs_chunks
unfolding IsPlain
its_base-IsPlain = (tt, (tt, tt))

two_runs-IsBacked :
    All (IsBacked two_runs.bytes_end (total_len its_base.segs_chunks)) two_runs.segs_chunks
unfolding IsBacked total_len
two_runs-IsBacked = (omega arith, (omega arith, tt))

-- Bytes are numbers. The base's file holds what the version's file has from where the copies go.
abbrev own : ℕ → ℕ
own d = d

abbrev shifted : ℕ → ℕ
shifted d = d + 5

abbrev no_deeper : ℕ → Option ℕ
no_deeper q = none

abbrev two_runs_params : AbsorptionParams
two_runs_params = record {
  chunk_replacements = none ∷ some (new_on_disk 10 3 22 ∷ new_on_disk 13 7 25 ∷ []) ∷ [];
  all_copy_ops =
      record { ofs_in_src_file = 17; copied_len = 3; ofs_in_dst_file = 22 }
      ∷ record { ofs_in_src_file = 20; copied_len = 7; ofs_in_dst_file = 25 }
      ∷ [];
  end_of_bytes = 32;
  new_base = none;
}

two_runs_absorbs : calc_base_absorption_params two_runs its_base ≡ ok two_runs_params
unfolding calc_base_absorption_params
two_runs_absorbs = refl

two_runs-IsCopied : IsCopied two_runs_params.all_copy_ops shifted own
unfolding IsCopied
two_runs-IsCopied = (λ i below. omega arith, (λ i below. omega arith, tt))

apply_absorption_params-calc_base_absorption_params_example :
    read_byte (apply_absorption_params two_runs two_runs_params).segs_chunks own no_deeper 14
    ≡ read_byte two_runs.segs_chunks own
        (λ q. read_byte its_base.segs_chunks shifted no_deeper q)
        14
apply_absorption_params-calc_base_absorption_params_example =
    apply_absorption_params-calc_base_absorption_params own shifted own no_deeper two_runs its_base
      two_runs_params its_base-IsTiling its_base-IsPlain two_runs-IsTiling two_runs-IsBacked
      two_runs_absorbs two_runs-IsCopied (λ d below. refl) 14

calc_base_absorption_params_returns_example :
    (params : AbsorptionParams) × (calc_base_absorption_params two_runs its_base ≡ ok params)
calc_base_absorption_params_returns_example =
    calc_base_absorption_params_returns two_runs its_base its_base-IsTiling its_base-IsPlain
      two_runs-IsTiling two_runs-IsBacked

ensure_no_holes_in-IsTiling_example :
    (ensure_no_holes_in two_runs.segs_chunks ≡ ok tt) ↔ IsTiling 0 two_runs.segs_chunks
ensure_no_holes_in-IsTiling_example = ensure_no_holes_in-IsTiling two_runs.segs_chunks
