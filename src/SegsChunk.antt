-- ===== src/SegsChunk.antt =====
-- The chunks of segments that ts-code/lib-common/objs-on-disk/file-layout.ts declares. A field of
-- the source is an argument, in the order thisVerOfs, len, baseVerOfs, fileOfs.
use core_3nweb_client_lib.Base.{ℕ, Option, none, some}

pub data SegsChunk : Type 0 where
  new_endless : ℕ → SegsChunk
  new : ℕ → ℕ → SegsChunk
  base : ℕ → ℕ → ℕ → SegsChunk
  new_on_disk : ℕ → ℕ → ℕ → SegsChunk
  base_on_disk : ℕ → ℕ → ℕ → ℕ → SegsChunk

pub record HeaderChunkInfo : Type 0 where
  pub len : ℕ
  pub file_ofs : ℕ

-- `chunk.thisVerOfs`
abbrev pub this_ver_ofs : SegsChunk → ℕ
this_ver_ofs (new_endless ofs) = ofs
this_ver_ofs (new ofs len) = ofs
this_ver_ofs (base ofs len base_ofs) = ofs
this_ver_ofs (new_on_disk ofs len file_ofs) = ofs
this_ver_ofs (base_on_disk ofs len base_ofs file_ofs) = ofs

-- `chunk.len`, `chunk.baseVerOfs` and `chunk.fileOfs`, where the chunk's type has the field.
abbrev pub len? : SegsChunk → Option ℕ
len? (new_endless ofs) = none
len? (new ofs len) = some len
len? (base ofs len base_ofs) = some len
len? (new_on_disk ofs len file_ofs) = some len
len? (base_on_disk ofs len base_ofs file_ofs) = some len

abbrev pub base_ver_ofs? : SegsChunk → Option ℕ
base_ver_ofs? (base ofs len base_ofs) = some base_ofs
base_ver_ofs? (base_on_disk ofs len base_ofs file_ofs) = some base_ofs
base_ver_ofs? _ = none

abbrev pub file_ofs? : SegsChunk → Option ℕ
file_ofs? (new_on_disk ofs len file_ofs) = some file_ofs
file_ofs? (base_on_disk ofs len base_ofs file_ofs) = some file_ofs
file_ofs? _ = none
