-- ===== src/V1Format.antt =====
-- ts-code/lib-common/objs-on-disk/v1-obj-file-format.ts: the bytes of a file's layout.
-- `Buffer.allocUnsafe` is the parameter `alloc`: it gives an array of the length asked for, with
-- bytes left from earlier use of the memory.
pub mod Encoding
pub mod Decoding
pub mod Layout
pub mod Reading
pub mod Ending
mod Runs
use core_3nweb_client_lib.Base.{
  ℕ, zero, suc, ◌+◌, ◌-◌, bit_and, bit_or, Bool, true, false, not, Option, none, some, List, [],
  ◌∷◌, length, ltb, ◌==◌, if◌then◌else◌, Outcome, ok, throws, ◌>>=◌,
}
use core_3nweb_client_lib.BigEndian.{
  BytesError, byte_at, put_byte, pack_uint_to4_bytes, uint_from4_bytes, pack_uint_to8_bytes,
  uint_from8_bytes,
}
use core_3nweb_client_lib.BigEndian.Stores.{overwrite}
use core_3nweb_client_lib.SegsChunk.{
  SegsChunk, HeaderChunkInfo, new_endless, new, base, new_on_disk, base_on_disk, this_ver_ofs, len?,
  base_ver_ofs?, file_ofs?,
}

-- `range_error` is thrown by `buf.set` where the bytes do not fit. `out_of_fuel` is no exception of
-- the source: it marks a loop that was given too few rounds.
pub data V1Error : Type 0 where
  bytes_error : BytesError → V1Error
  infinite_on_disk range_error out_of_fuel : V1Error

abbrev pub of_bytes : {A : Type 0} → Outcome BytesError A → Outcome V1Error A
of_bytes (ok a) = ok a
of_bytes (throws e) = throws (bytes_error e)

-- What the reader makes of a chunk's bytes. A base chunk whose `len` is `undefined` is outside of
-- the source's types, and is yet made.
pub data ReadChunk : Type 0 where
  chunk : SegsChunk → ReadChunk
  base_without_len : ℕ → ℕ → ReadChunk

-- `Attrs`, with the type of its chunks.
pub record Attrs (C : Type 0) : Type 0 where
  pub file_complete : Bool
  pub segs_chunks : List C
  pub header_chunk : Option HeaderChunkInfo
  pub segs_layout_frozen : Bool
  pub base_version : Option ℕ
  pub size_unknown : Bool
  pub all_base_bytes_in_file : Bool

abbrev has_bit : ℕ → ℕ → Bool
has_bit flag mask = not (bit_and flag mask == 0)

abbrev pub bit_if : Bool → ℕ → ℕ → ℕ
bit_if c mask flag = if c then bit_or flag mask else flag

abbrev is_some : Option ℕ → Bool
is_some none = false
is_some (some n) = true

-- `buf.set(bytes, i)`
pub set_bytes : List ℕ → List ℕ → ℕ → Outcome V1Error (List ℕ)
set_bytes buf bytes i =
    if ltb (length buf) (i + length bytes) then throws range_error else ok (overwrite buf i bytes)

-- A value that a chunk may lack is packed at index `i`, and the index moves behind it.
abbrev pack_next : Option ℕ → List ℕ × ℕ → Outcome V1Error (List ℕ × ℕ)
pack_next none (b, i) = ok (b, i)
pack_next (some u) (b, i) = do b' ← of_bytes (pack_uint_to8_bytes u b i); ok (b', i + 8)

-- A value is read if its bit in the flag says so.
read_next : Bool → List ℕ → ℕ → Outcome V1Error (Option ℕ × ℕ)
read_next false b i = ok (none, i)
read_next true b i = do u ← of_bytes (uint_from8_bytes b i); ok (some u, i + 8)

module _ (alloc : ℕ → List ℕ) where
  pub header_to_bytes : HeaderChunkInfo → Outcome V1Error (List ℕ)
  header_to_bytes h = do
    let buf = alloc 12
    b ← of_bytes (pack_uint_to4_bytes h.len buf 0)
    of_bytes (pack_uint_to8_bytes h.file_ofs b 4)

  -- `segsChunkInfo.toBytes`. The bit that marks an endless chunk is never set.
  pub segs_to_bytes : SegsChunk → Outcome V1Error (List ℕ)
  segs_to_bytes s = do
    let on_disk = is_some (file_ofs? s)
    let of_base = is_some (base_ver_ofs? s)
    let flag = bit_if of_base 4 (bit_if on_disk 2 0)
    let buf_size = 17 + (if on_disk then 8 else 0) + (if of_base then 8 else 0)
    let buf = put_byte (alloc buf_size) 0 flag
    b ← of_bytes (pack_uint_to8_bytes (this_ver_ofs s) buf 1)
    (b1, i1) ← pack_next (len? s) (b, 9)
    (b2, i2) ← pack_next (file_ofs? s) (b1, i1)
    (b3, _) ← pack_next (base_ver_ofs? s) (b2, i2)
    ok b3

pub header_from_bytes : List ℕ → ℕ → Outcome V1Error (HeaderChunkInfo × ℕ)
header_from_bytes b i = do
  len ← of_bytes (uint_from4_bytes b i)
  file_ofs ← of_bytes (uint_from8_bytes b (i + 4))
  ok (record { len = len; file_ofs = file_ofs }, 12)

-- The chunk that the values read make: on disk or not, of base or new, finite or not.
pub chunk_of : ℕ → Option ℕ → Option ℕ → Option ℕ → Outcome V1Error ReadChunk
chunk_of ofs none (some f) base_ofs = throws infinite_on_disk
chunk_of ofs (some len) (some f) (some b) = ok (chunk (base_on_disk ofs len b f))
chunk_of ofs (some len) (some f) none = ok (chunk (new_on_disk ofs len f))
chunk_of ofs (some len) none (some b) = ok (chunk (base ofs len b))
chunk_of ofs none none (some b) = ok (base_without_len ofs b)
chunk_of ofs (some len) none none = ok (chunk (new ofs len))
chunk_of ofs none none none = ok (chunk (new_endless ofs))

-- `segsChunkInfo.fromBytes`: the chunk, and the number of bytes read.
pub segs_from_bytes : List ℕ → ℕ → Outcome V1Error (ReadChunk × ℕ)
unfolding chunk_of read_next
segs_from_bytes b i = do
  let flag = byte_at b i
  ofs ← of_bytes (uint_from8_bytes b (i + 1))
  (len, n1) ← read_next (bit_and flag 1 == 0) b (i + 9)
  (file_ofs, n2) ← read_next (has_bit flag 2) b n1
  (base_ofs, n3) ← read_next (has_bit flag 4) b n2
  c ← chunk_of ofs len file_ofs base_ofs
  ok (c, n3 - i)

-- `buf.set` of one chunk's bytes behind the other.
set_all : List ℕ → ℕ → List (List ℕ) → Outcome V1Error (List ℕ)
set_all buf i [] = ok buf
set_all buf i (c ∷ cs) = do buf' ← set_bytes buf c i; set_all buf' (i + length c) cs

pub total_len_of : List (List ℕ) → ℕ
total_len_of [] = 0
total_len_of (a ∷ arrs) = length a + total_len_of arrs

-- Bytes that may be absent.
abbrev pub present_len : Option (List ℕ) → ℕ
present_len none = 0
present_len (some b) = length b

set_present : Option (List ℕ) → List ℕ × ℕ → Outcome V1Error (List ℕ × ℕ)
set_present none (buf, i) = ok (buf, i)
set_present (some b) (buf, i) = do buf' ← set_bytes buf b i; ok (buf', i + length b)

-- The flag byte of a layout.
abbrev base_flag : Attrs SegsChunk → ℕ
base_flag a = elim a.base_version [
  | none ↦ 0
  | some v ↦ bit_if a.all_base_bytes_in_file 32 (bit_or 0 2)
]

abbrev header_flag : Attrs SegsChunk → ℕ → ℕ
header_flag a flag = elim a.header_chunk [
  | none ↦ flag
  | some h ↦ bit_if a.file_complete 16 (bit_or flag 1)
]

abbrev pub layout_flag : Attrs SegsChunk → ℕ
layout_flag a =
    bit_if a.size_unknown 8 (bit_if a.segs_layout_frozen 4 (header_flag a (base_flag a)))

-- The end of `toBytes`: the flag and the parts are set into the array `buf`, one behind the other.
assemble : ℕ → Option (List ℕ) → Option (List ℕ) → List (List ℕ) → List ℕ → Outcome V1Error (List ℕ)
assemble flag base_b header_b segs buf = do
  (buf1, i1) ← set_present base_b (put_byte buf 0 flag, 1)
  (buf2, i2) ← set_present header_b (buf1, i1)
  set_all buf2 i2 segs

module _ (alloc : ℕ → List ℕ) where
  segs_all_to_bytes : List SegsChunk → Outcome V1Error (List (List ℕ))
  segs_all_to_bytes [] = ok []
  segs_all_to_bytes (s ∷ ss) = do b ← segs_to_bytes alloc s; bs ← segs_all_to_bytes ss; ok (b ∷ bs)

  base_bytes : Option ℕ → Outcome V1Error (Option (List ℕ))
  base_bytes none = ok none
  base_bytes (some v) = do b ← of_bytes (pack_uint_to8_bytes v (alloc 8) 0); ok (some b)

  header_bytes : Option HeaderChunkInfo → Outcome V1Error (Option (List ℕ))
  header_bytes none = ok none
  header_bytes (some h) = do b ← header_to_bytes alloc h; ok (some b)

  -- `layoutV1.toBytes`
  pub layout_to_bytes : Attrs SegsChunk → Outcome V1Error (List ℕ)
  layout_to_bytes a = do
    base_b ← base_bytes a.base_version
    header_b ← header_bytes a.header_chunk
    segs ← segs_all_to_bytes a.segs_chunks
    let buf = alloc (1 + present_len base_b + present_len header_b + total_len_of segs)
    assemble (layout_flag a) base_b header_b segs buf

-- The loop of `layoutV1.fromBytes` over the chunks, with `fuel` rounds at most.
segs_all_from_bytes : ℕ → List ℕ → ℕ → Outcome V1Error (List ReadChunk)
segs_all_from_bytes zero b i = if ltb i (length b) then throws out_of_fuel else ok []
segs_all_from_bytes (suc fuel) b i =
    let more = (do
      (s, n) ← segs_from_bytes b i
      ss ← segs_all_from_bytes fuel b (i + n)
      ok (s ∷ ss)) in
    if ltb i (length b) then more else ok []

read_header : Bool → List ℕ → ℕ → Outcome V1Error (Option HeaderChunkInfo × ℕ)
read_header false b i = ok (none, i)
read_header true b i = do (h, n) ← header_from_bytes b i; ok (some h, i + n)

-- `layoutV1.fromBytes`. `flag && MASK` of the last attribute is true for every flag but 0.
pub layout_from_bytes : List ℕ → ℕ → Outcome V1Error (Attrs ReadChunk)
layout_from_bytes b i = do
  let flag = byte_at b i
  (base_version, i1) ← read_next (has_bit flag 2) b (i + 1)
  (header, i2) ← read_header (has_bit flag 1) b i1
  segs ← segs_all_from_bytes (length b) b i2
  ok (record {
    file_complete = has_bit flag 16;
    segs_chunks = segs;
    header_chunk = header;
    segs_layout_frozen = has_bit flag 4;
    base_version = base_version;
    size_unknown = has_bit flag 8;
    all_base_bytes_in_file = not (flag == 0);
  })
