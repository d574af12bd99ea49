-- ===== src/V1Format/Runs.antt =====
-- Runs of v1-obj-file-format.ts, and its theorems at concrete inputs.
use core_3nweb_client_lib.Base.{
  ℕ, zero, suc, ◌≡◌, ◌≢◌, refl, ap, arith, List, [], ◌∷◌, ◌++◌, length, ok, throws, some, true,
  false,
}
use core_3nweb_client_lib.BigEndian.{uint_from8_bytes}
use core_3nweb_client_lib.SegsChunk.{SegsChunk, new, base, new_on_disk, base_on_disk}
use core_3nweb_client_lib.V1Format.{
  Attrs, chunk, segs_to_bytes, segs_from_bytes, layout_to_bytes, layout_from_bytes, out_of_fuel,
  base_without_len,
}
use core_3nweb_client_lib.V1Format.Decoding.{segs_from_bytes-segs_to_bytes, endless_read_as_new}
use core_3nweb_client_lib.V1Format.Encoding.{segs_to_bytes-endless}
use core_3nweb_client_lib.V1Format.Reading.{read_back, layout_from_bytes-layout_to_bytes}
use core_3nweb_client_lib.V1Format.Ending.{layout_from_bytes_total}

-- Memory that holds sevens.
abbrev sevens : ℕ → List ℕ
sevens zero = []
sevens (suc n) = 7 ∷ sevens n

length-sevens : (n : ℕ) → length (sevens n) ≡ n
length-sevens zero = refl
length-sevens (suc n) = ap suc (length-sevens n)

segs_from_bytes-segs_to_bytes_example :
    (b : List ℕ) × (segs_to_bytes sevens (base_on_disk 300 20 40 512) ≡ ok b)
    × ((p q : List ℕ)
        → segs_from_bytes (p ++ (b ++ q)) (length p)
          ≡ ok (chunk (base_on_disk 300 20 40 512), length b))
segs_from_bytes-segs_to_bytes_example =
    segs_from_bytes-segs_to_bytes sevens length-sevens (base_on_disk 300 20 40 512) (omega arith)

-- An endless chunk is read as a chunk whose length is what the memory held.
endless_run :
    segs_from_bytes (0 ∷ 0 ∷ 0 ∷ 0 ∷ 0 ∷ 0 ∷ 0 ∷ 0 ∷ 5 ∷ 0 ∷ 0 ∷ 0 ∷ 0 ∷ 0 ∷ 0 ∷ 7 ∷ 7 ∷ []) 0
    ≡ ok (chunk (new 5 1799), 17)
unfolding segs_from_bytes uint_from8_bytes
endless_run = refl

-- Flag 5 makes a base chunk whose length is undefined.
base_without_len_run :
    segs_from_bytes (5 ∷ 0 ∷ 0 ∷ 0 ∷ 0 ∷ 0 ∷ 0 ∷ 0 ∷ 5 ∷ 0 ∷ 0 ∷ 0 ∷ 0 ∷ 0 ∷ 0 ∷ 0 ∷ 6 ∷ []) 0
    ≡ ok (base_without_len 5 6, 17)
unfolding segs_from_bytes uint_from8_bytes
base_without_len_run = refl

abbrev held : List ℕ
held = 0 ∷ 0 ∷ 0 ∷ 0 ∷ 0 ∷ 0 ∷ 0 ∷ 0 ∷ []

-- Memory that holds zeros.
abbrev zeros : ℕ → List ℕ
zeros zero = []
zeros (suc n) = 0 ∷ zeros n

length-zeros : (n : ℕ) → length (zeros n) ≡ n
length-zeros zero = refl
length-zeros (suc n) = ap suc (length-zeros n)

endless_read :
    segs_from_bytes (0 ∷ 0 ∷ 0 ∷ 0 ∷ 0 ∷ 0 ∷ 0 ∷ 0 ∷ 5 ∷ held) 0 ≡ ok (chunk (new 5 0), 17)
unfolding segs_from_bytes uint_from8_bytes
endless_read = refl

endless_read_as_new_example : (g : ℕ) × (chunk (new 5 0) ≡ chunk (new 5 g))
endless_read_as_new_example =
    endless_read_as_new zeros length-zeros 5 (0 ∷ 0 ∷ 0 ∷ 0 ∷ 0 ∷ 0 ∷ 0 ∷ 0 ∷ 5 ∷ held)
      (chunk (new 5 0)) 17 (omega arith) (segs_to_bytes-endless zeros length-zeros 5 (omega arith))
      endless_read

abbrev attrs : Attrs SegsChunk
attrs = record {
  file_complete = true;
  segs_chunks = base 0 20 40 ∷ new_on_disk 20 30 100 ∷ [];
  header_chunk = some (record { len = 80; file_ofs = 12 });
  segs_layout_frozen = true;
  base_version = some 3;
  size_unknown = false;
  all_base_bytes_in_file = false;
}

layout_from_bytes-layout_to_bytes_example :
    (b : List ℕ) × (layout_to_bytes sevens attrs ≡ ok b)
    × (layout_from_bytes b 0 ≡ ok (read_back attrs))
layout_from_bytes-layout_to_bytes_example =
    layout_from_bytes-layout_to_bytes sevens length-sevens attrs
      (record { safe_base = omega arith; safe_header = omega arith; storable = omega arith })

layout_from_bytes_total_example : layout_from_bytes (1 ∷ 2 ∷ []) 0 ≢ throws out_of_fuel
layout_from_bytes_total_example = layout_from_bytes_total (1 ∷ 2 ∷ []) 0
