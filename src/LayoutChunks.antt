-- ===== src/LayoutChunks.antt =====
-- The functions on arrays of chunks at the end of
-- ts-code/lib-common/objs-on-disk/file-layout.ts, and the loop of `segsLocations`.
-- `Layout` of the package xsp-files is a list of sections and a base.
pub mod Places
pub mod Holes
pub mod Locations
pub mod Lookup
pub mod Zipper
pub mod NewBytes
use core_3nweb_client_lib.Base.{
  ℕ, ◌+◌, ◌-◌, ◌^◌, min, Bool, true, false, ◌&&◌, not, Option, none, some, List, [], ◌∷◌, ◌++◌,
  take, drop, ltb, leb, ◌==◌, if◌then◌else◌, Outcome, ok, throws, ◌>>=◌,
}
use core_3nweb_client_lib.SegsChunk.{
  SegsChunk, new_endless, new, base, new_on_disk, base_on_disk, this_ver_ofs,
}

pub data LayoutError : Type 0 where
  section_out_of_place endless_not_last non_merging_overlap after_endless : LayoutError
  in_memory_before_layout hole overlap frozen two_endless : LayoutError
  wrong_file_ofs second_header assertion not_implemented : LayoutError

pub data LayoutSection : Type 0 where
  base_section : ℕ → ℕ → ℕ → LayoutSection
  new_section : ℕ → Option ℕ → LayoutSection

-- `cs.push(c)` in front of what the rest of a loop pushes.
abbrev pub prepend :
    SegsChunk → Outcome LayoutError (List SegsChunk) → Outcome LayoutError (List SegsChunk)
prepend c rest = rest >>= λ cs. ok (c ∷ cs)

unfoldable pub layout_section_to_segs_chunk : LayoutSection → SegsChunk
layout_section_to_segs_chunk (base_section ofs len base_ofs) = base ofs len base_ofs
layout_section_to_segs_chunk (new_section ofs none) = new_endless ofs
layout_section_to_segs_chunk (new_section ofs (some len)) = new ofs len

abbrev is_last : List LayoutSection → Bool
is_last [] = true
is_last (s ∷ ss) = false

-- The loop of `layoutSectionsToSegsChunks`, from `expectedThisVerOfs`. An endless section adds no
-- chunk.
unfoldable pub sections_from : ℕ → List LayoutSection → Outcome LayoutError (List SegsChunk)
unfolding layout_section_to_segs_chunk
sections_from expected [] = ok []
sections_from expected (base_section ofs len base_ofs ∷ ss) =
    let more =
      prepend (layout_section_to_segs_chunk (base_section ofs len base_ofs))
        (sections_from (expected + len) ss) in
    if ofs == expected then more else throws section_out_of_place
sections_from expected (new_section ofs (some len) ∷ ss) =
    let more =
      prepend (layout_section_to_segs_chunk (new_section ofs (some len)))
        (sections_from (expected + len) ss) in
    if ofs == expected then more else throws section_out_of_place
sections_from expected (new_section ofs none ∷ ss) =
    let more = sections_from expected ss in
    if ofs == expected
    then (if is_last ss then more else throws endless_not_last)
    else throws section_out_of_place

unfoldable pub layout_sections_to_segs_chunks :
    List LayoutSection → Outcome LayoutError (List SegsChunk)
unfolding sections_from
layout_sections_to_segs_chunks sections = sections_from 0 sections

unfoldable pub can_merge_chunks : SegsChunk → SegsChunk → Outcome LayoutError Bool
can_merge_chunks (new_endless a) (new_endless b) = throws after_endless
can_merge_chunks (new a al) (new b bl) = ok (a + al == b)
can_merge_chunks (base a al ab) (base b bl bb) = ok (a + al == b)
can_merge_chunks (new_on_disk a al af) (new_on_disk b bl bf) = ok (a + al == b && af + al == bf)
can_merge_chunks (base_on_disk a al ab af) (base_on_disk b bl bb bf) =
    ok (a + al == b && af + al == bf)
can_merge_chunks _ _ = ok false

-- `(a as OnDiskChunk).len += n`
unfoldable pub grow : SegsChunk → ℕ → SegsChunk
grow (new_endless ofs) n = new_endless ofs
grow (new ofs len) n = new ofs (len + n)
grow (base ofs len base_ofs) n = base ofs (len + n) base_ofs
grow (new_on_disk ofs len file_ofs) n = new_on_disk ofs (len + n) file_ofs
grow (base_on_disk ofs len base_ofs file_ofs) n = base_on_disk ofs (len + n) base_ofs file_ofs

-- `a.len` of a chunk that has one.
abbrev pub len_of : SegsChunk → ℕ
len_of (new_endless ofs) = 0
len_of (new ofs len) = len
len_of (base ofs len base_ofs) = len
len_of (new_on_disk ofs len file_ofs) = len
len_of (base_on_disk ofs len base_ofs file_ofs) = len

-- An array that is cut at an index is two lists: the chunks before it, the nearest first, and the
-- chunks from it on.
abbrev pub rejoin : List SegsChunk → List SegsChunk → List SegsChunk
rejoin [] after = after
rejoin (c ∷ before) after = rejoin before (c ∷ after)

-- `chunk` and `right` stand at the cut, and are one where they merge.
abbrev pub merged : List SegsChunk → SegsChunk → SegsChunk → List SegsChunk → Bool → List SegsChunk
merged before chunk right after true = rejoin (grow chunk (len_of right) ∷ before) after
merged before chunk right after false = rejoin (chunk ∷ before) (right ∷ after)

-- `chunk` stands at the cut, and takes up the chunk on its right where it can.
unfoldable pub merge_right :
    List SegsChunk → SegsChunk → List SegsChunk → Outcome LayoutError (List SegsChunk)
unfolding can_merge_chunks grow
merge_right before chunk [] = ok (rejoin (chunk ∷ before) [])
merge_right before chunk (right ∷ after) = do
  merges ← can_merge_chunks chunk right
  ok (merged before chunk right after merges)

-- `insertOrMergeChunkAt`
unfoldable pub insert_or_merge_chunk_at :
    List SegsChunk → List SegsChunk → SegsChunk → Outcome LayoutError (List SegsChunk)
unfolding can_merge_chunks grow merge_right
insert_or_merge_chunk_at [] after chunk = merge_right [] chunk after
insert_or_merge_chunk_at (left ∷ before) after chunk = can_merge_chunks left chunk >>= λ merges.
    if merges
    then merge_right before (grow left (len_of chunk)) after
    else merge_right (left ∷ before) chunk after

-- `chunk.type !== 'new-endless'` and `chunkEnd <= ofs`
pub ends_by : SegsChunk → ℕ → Bool
ends_by (new_endless o) ofs = false
ends_by c ofs = leb (this_ver_ofs c + len_of c) ofs

-- The sides of an overlapped chunk `new` that stay: what is left of `ofs`, and what is right of
-- `end`.
pub new_left : ℕ → ℕ → List SegsChunk
new_left o ofs = if ltb o ofs then new o (ofs - o) ∷ [] else []

pub new_right : ℕ → ℕ → List SegsChunk
new_right chunk_end end = if ltb end chunk_end then new end (chunk_end - end) ∷ [] else []

-- The chunk that the new one overlaps is cut, and the new one is inserted.
pub cut_for_new :
    SegsChunk → List SegsChunk → List SegsChunk → ℕ → ℕ → ℕ → Outcome LayoutError (List SegsChunk)
unfolding insert_or_merge_chunk_at new_left new_right
cut_for_new (new o l) before after ofs len file_ofs =
    insert_or_merge_chunk_at (new_left o ofs ++ before) (new_right (o + l) (ofs + len) ++ after)
      (new_on_disk ofs len file_ofs)
cut_for_new (new_endless o) before after ofs len file_ofs =
    insert_or_merge_chunk_at (new_left o ofs ++ before) (new_endless (ofs + len) ∷ after)
      (new_on_disk ofs len file_ofs)
cut_for_new _ before after ofs len file_ofs = throws non_merging_overlap

-- The loop of `addNewSegsChunkTo`, from the last chunk down: `before` is yet to be looked at, and
-- `after` has been passed.
pub add_new_loop :
    List SegsChunk → List SegsChunk → ℕ → ℕ → ℕ → Outcome LayoutError (List SegsChunk)
unfolding insert_or_merge_chunk_at ends_by cut_for_new
add_new_loop [] after ofs len file_ofs =
    insert_or_merge_chunk_at [] after (new_on_disk ofs len file_ofs)
add_new_loop (c ∷ before) after ofs len file_ofs =
    let passed = add_new_loop before (c ∷ after) ofs len file_ofs in
    if leb (ofs + len) (this_ver_ofs c)
    then passed
    else if ends_by c ofs
    then insert_or_merge_chunk_at (c ∷ before) after (new_on_disk ofs len file_ofs)
    else cut_for_new c before after ofs len file_ofs

-- The array cut after its last chunk.
abbrev pub backwards : List SegsChunk → List SegsChunk → List SegsChunk
backwards before [] = before
backwards before (c ∷ after) = backwards (c ∷ before) after

pub add_new_segs_chunk_to : List SegsChunk → ℕ → ℕ → ℕ → Outcome LayoutError (List SegsChunk)
unfolding add_new_loop
add_new_segs_chunk_to chunks ofs len file_ofs =
    add_new_loop (backwards [] chunks) [] ofs len file_ofs

pub base_left : ℕ → ℕ → ℕ → List SegsChunk
base_left o base_ofs ofs = if ltb o ofs then base o (ofs - o) base_ofs ∷ [] else []

pub base_right : ℕ → ℕ → ℕ → List SegsChunk
base_right chunk_end end base_end =
    if ltb end chunk_end then base end (chunk_end - end) base_end ∷ [] else []

-- After an overlap the code inserts at index 1, wherever the overlapped chunk was.
pub insert_at_one : List SegsChunk → SegsChunk → Outcome LayoutError (List SegsChunk)
unfolding insert_or_merge_chunk_at
insert_at_one chunks chunk =
    insert_or_merge_chunk_at (backwards [] (take 1 chunks)) (drop 1 chunks) chunk

pub add_base_loop :
    List SegsChunk → List SegsChunk → ℕ → ℕ → ℕ → ℕ → Outcome LayoutError (List SegsChunk)
unfolding insert_or_merge_chunk_at insert_at_one ends_by base_left base_right
add_base_loop [] after ofs base_ofs len file_ofs =
    insert_or_merge_chunk_at [] after (base_on_disk ofs len base_ofs file_ofs)
add_base_loop (c ∷ before) after ofs base_ofs len file_ofs =
    let passed = add_base_loop before (c ∷ after) ofs base_ofs len file_ofs in
    let chunk = base_on_disk ofs len base_ofs file_ofs in
    if leb (ofs + len) (this_ver_ofs c)
    then passed
    else if ends_by c ofs
    then insert_or_merge_chunk_at (c ∷ before) after chunk
    else elim c [
      | base o l b ↦
          insert_at_one
            (rejoin (base_left o b ofs ++ before)
              (base_right (o + l) (ofs + len) (base_ofs + len) ++ after))
            chunk
      | _ ↦ throws non_merging_overlap
    ]

unfoldable pub add_base_segs_chunk_to :
    List SegsChunk → ℕ → ℕ → ℕ → ℕ → Outcome LayoutError (List SegsChunk)
unfolding add_base_loop
add_base_segs_chunk_to chunks ofs base_ofs len file_ofs =
    add_base_loop (backwards [] chunks) [] ofs base_ofs len file_ofs

unfoldable pub combine_chunks_on_disk_with_layout :
    List SegsChunk → List SegsChunk → Outcome LayoutError (List SegsChunk)
unfolding add_new_segs_chunk_to add_base_segs_chunk_to
combine_chunks_on_disk_with_layout layout [] = ok layout
combine_chunks_on_disk_with_layout layout (new_on_disk ofs len file_ofs ∷ chunks) = do
  layout' ← add_new_segs_chunk_to layout ofs len file_ofs
  combine_chunks_on_disk_with_layout layout' chunks
combine_chunks_on_disk_with_layout layout (base_on_disk ofs len base_ofs file_ofs ∷ chunks) = do
  layout' ← add_base_segs_chunk_to layout ofs base_ofs len file_ofs
  combine_chunks_on_disk_with_layout layout' chunks
combine_chunks_on_disk_with_layout layout (_ ∷ chunks) = throws in_memory_before_layout

abbrev is_nil : List SegsChunk → Bool
is_nil [] = true
is_nil (c ∷ cs) = false

-- The loop of `ensureNoHolesIn`, from `thisVerOfs`.
pub no_holes_from : ℕ → List SegsChunk → Outcome LayoutError (Unit {0})
no_holes_from ofs [] = ok tt
no_holes_from ofs (c ∷ cs) =
    let next = no_holes_from (ofs + len_of c) cs in
    if this_ver_ofs c == ofs
    then (elim c [ new_endless o ↦ if is_nil cs then next else throws endless_not_last | _ ↦ next ])
    else if ltb ofs (this_ver_ofs c)
    then throws hole
    else throws overlap

pub ensure_no_holes_in : List SegsChunk → Outcome LayoutError (Unit {0})
unfolding no_holes_from
ensure_no_holes_in chunks = no_holes_from 0 chunks

-- `chunkEnd` of `segsLocations`: `Number.MAX_SAFE_INTEGER` past the offset of an endless chunk.
pub chunk_end : SegsChunk → ℕ
chunk_end (new_endless ofs) = ofs + (2 ^ 53 - 1)
chunk_end c = this_ver_ofs c + len_of c

-- The part of a chunk from `ofs`, which is not below the chunk's own offset.
pub chop : SegsChunk → ℕ → ℕ → SegsChunk
unfolding chunk_end
chop (new_endless o) ofs end = new ofs (end - ofs)
chop (new o l) ofs end = new ofs (min end (o + l) - ofs)
chop (base o l b) ofs end = base ofs (min end (o + l) - ofs) (b + (ofs - o))
chop (new_on_disk o l f) ofs end = new_on_disk ofs (min end (o + l) - ofs) (f + (ofs - o))
chop (base_on_disk o l b f) ofs end =
    base_on_disk ofs (min end (o + l) - ofs) (b + (ofs - o)) (f + (ofs - o))

-- What is pushed after the loop of `segsLocations`.
pub rest_locations : Bool → ℕ → ℕ → List SegsChunk
rest_locations is_frozen ofs len = if ltb 0 len && not is_frozen then new ofs len ∷ [] else []

-- The loop of `segsLocations`, and what follows it. A chunk in front of which a hole is found is
-- not looked at again.
unfoldable pub locations_loop :
    Bool → ℕ → List SegsChunk → ℕ → ℕ → Outcome LayoutError (List SegsChunk)
unfolding chunk_end chop rest_locations
locations_loop is_frozen end [] ofs len = ok (rest_locations is_frozen ofs len)
locations_loop is_frozen end (c ∷ cs) ofs len =
    let skip = locations_loop is_frozen end cs ofs len in
    let hole_len = this_ver_ofs c - ofs in
    let past_hole = locations_loop is_frozen end cs (ofs + hole_len) (len - hole_len) in
    let part = chop c ofs end in
    let past_chop = locations_loop is_frozen end cs (ofs + len_of part) (len - len_of part) in
    if ltb 0 len
    then (if leb (chunk_end c) ofs
        then skip
        else if leb end (this_ver_ofs c)
        then ok (rest_locations is_frozen ofs len)
        else if ltb ofs (this_ver_ofs c)
        then (if is_frozen then throws hole else prepend (new ofs hole_len) past_hole)
        else prepend part past_chop)
    else ok (rest_locations is_frozen ofs len)
