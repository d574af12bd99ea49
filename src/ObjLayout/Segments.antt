-- ===== src/ObjLayout/Segments.antt =====
-- `segsLocations` and `addSegsOnFile` of ts-code/lib-common/objs-on-disk/file-layout.ts.
use core_3nweb_client_lib.Base.{
  ℕ, ◌+◌, ◌-◌, ◌^◌, ◌≤◌, ◌≡◌, refl, arith, false, ◌∷◌, ==_refl, All, ok,
}
use core_3nweb_client_lib.SegsChunk.{new_on_disk}
use core_3nweb_client_lib.LayoutChunks.Places.{IsTiling, place_at}
use core_3nweb_client_lib.LayoutChunks.Locations.{Tiles, locations_loop-Tiles}
use core_3nweb_client_lib.LayoutChunks.Lookup.{Locates, locations_loop-Locates}
use core_3nweb_client_lib.LayoutChunks.Zipper.{IsOrdered}
use core_3nweb_client_lib.LayoutChunks.NewBytes.{IsWritable, Shows, add_new_segs_chunk_to-Shows}
use core_3nweb_client_lib.ObjLayout.{
  ObjLayout, segs_locations, add_segs_on_file, ensure_expected_file_ofs,
}

-- While a layout is not frozen, `segsLocations` returns parts that lie one after another from the
-- offset that is asked for, and have as many bytes as are asked for.
pub segs_locations-Tiles :
    (l : ObjLayout) (ofs len : ℕ)
    → l.segs_layout_frozen ≡ false
    → Tiles ofs len (segs_locations l ofs len)
unfolding segs_locations
segs_locations-Tiles l ofs len unfrozen =
    rw unfrozen (locations_loop-Tiles l.segs_chunks ofs len (ofs + len) refl)

-- Where chunks lie one after another from 0 on, and the asked range ends at a safe integer,
-- `segsLocations` returns parts by which every byte of the range is where the chunks have it. A
-- byte past the chunks is unwritten, or is absent when the layout is frozen.
pub segs_locations-Locates :
    (l : ObjLayout) (ofs len : ℕ)
    → IsTiling 0 l.segs_chunks
    → ofs + len ≤ 2 ^ 53 - 1
    → Locates l.segs_layout_frozen l.segs_chunks ofs (ofs + len) (segs_locations l ofs len)
unfolding segs_locations
segs_locations-Locates l ofs len tiling small =
    locations_loop-Locates l.segs_layout_frozen l.segs_chunks 0 ofs len (ofs + len) tiling
      (λ some_left. omega arith) refl small

-- Bytes that are written at the end of the file, over ordered chunks of which they overlap only
-- ones that are not on disk and start no later: `addSegsOnFile` returns a layout with the end moved
-- by their length, with the new bytes where they are written, and with all others where they were.
pub add_segs_on_file-Shows :
    (l : ObjLayout) (ofs len : ℕ)
    → IsOrdered 0 l.segs_chunks
    → All (IsWritable ofs (ofs + len)) l.segs_chunks
    → (l' : ObjLayout) × (add_segs_on_file l ofs len l.bytes_end ≡ ok l')
      × (l'.bytes_end ≡ l.bytes_end + len)
      × ((p : ℕ)
          → place_at l'.segs_chunks p
            ≡ place_at (new_on_disk ofs len l.bytes_end ∷ l.segs_chunks) p)
unfolding add_segs_on_file ensure_expected_file_ofs Shows
add_segs_on_file-Shows l ofs len ordered writable =
    let (chunks, e, shown) =
      add_new_segs_chunk_to-Shows l.segs_chunks ofs len l.bytes_end ordered writable in
    (
      record l { segs_chunks = chunks; bytes_end = l.bytes_end + len },
      rw (==_refl l.bytes_end) (rw e refl),
      refl,
      shown,
    )
