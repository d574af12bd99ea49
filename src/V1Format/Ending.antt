-- ===== src/V1Format/Ending.antt =====
-- The reading loop of v1-obj-file-format.ts ends on every input.
use core_3nweb_client_lib.Base.{
  ℕ, zero, suc, ◌+◌, ◌≤◌, ◌≡◌, ◌≢◌, arith, List, length, ok, throws, Outcome, Option, Bool, true,
  false, ge→ltb, Outcome-cases, inl, inr,
}
use core_3nweb_client_lib.BigEndian.{BytesError, uint_from8_bytes}
use core_3nweb_client_lib.V1Format.{
  ReadChunk, out_of_fuel, of_bytes, segs_from_bytes, segs_all_from_bytes, read_header, read_next,
  header_from_bytes, layout_from_bytes, chunk_of,
}

read_next_mono :
    (c : Bool) (b : List ℕ) (i : ℕ) (o : Option ℕ) (n : ℕ) → read_next c b i ≡ ok (o, n) → i ≤ n
unfolding read_next
read_next_mono false b i o n h = ground arith
read_next_mono true b i o n h = elim (Outcome-cases (uint_from8_bytes b i)) [
  | inl (u, e) ↦ ground (arith, e)
  | inr (x, e) ↦ ground (arith, e)
]

read_next-fuel : (c : Bool) (b : List ℕ) (i : ℕ) → read_next c b i ≢ throws out_of_fuel
unfolding read_next
read_next-fuel false b i h = ground arith
read_next-fuel true b i h = elim (Outcome-cases (uint_from8_bytes b i)) [
  | inl (u, e) ↦ ground (arith, e)
  | inr (x, e) ↦ ground (arith, e)
]

of_bytes-fuel : {A : Type 0} (m : Outcome BytesError A) → of_bytes m ≢ throws out_of_fuel
of_bytes-fuel (ok a) h = cc
of_bytes-fuel (throws e) h = cc

chunk_of-fuel : (o : ℕ) (len f b : Option ℕ) → chunk_of o len f b ≢ throws out_of_fuel
unfolding chunk_of
chunk_of-fuel o len f b h = ground arith

read_header-fuel : (c : Bool) (b : List ℕ) (i : ℕ) → read_header c b i ≢ throws out_of_fuel
unfolding read_header header_from_bytes
read_header-fuel false b i h = cc
read_header-fuel true b i h = grind (arith, of_bytes-fuel)

-- A chunk takes nine bytes at least.
segs_from_bytes-pos :
    (b : List ℕ) (i : ℕ) (c : ReadChunk) (n : ℕ) → segs_from_bytes b i ≡ ok (c, n) → 9 ≤ n
unfolding segs_from_bytes
segs_from_bytes-pos b i c n h = grind (arith, read_next_mono)

segs_from_bytes-fuel : (b : List ℕ) (i : ℕ) → segs_from_bytes b i ≢ throws out_of_fuel
unfolding segs_from_bytes
segs_from_bytes-fuel b i h = grind (arith, of_bytes-fuel, read_next-fuel, chunk_of-fuel)

segs_all_from_bytes-fuel :
    (fuel : ℕ) (b : List ℕ) (i : ℕ)
    → length b ≤ fuel + i
    → segs_all_from_bytes fuel b i ≢ throws out_of_fuel
unfolding segs_all_from_bytes
segs_all_from_bytes-fuel zero b i h e = ground (arith, ge→ltb i (length b))
segs_all_from_bytes-fuel (suc fuel) b i h e = elim (Outcome-cases (segs_from_bytes b i)) [
  | inl ((c, n), read) ↦
      ground (arith, read, segs_from_bytes-pos b i c n, segs_all_from_bytes-fuel fuel b (i + n))
  | inr (x, read) ↦ ground (arith, read, segs_from_bytes-fuel b i)
]

-- The loop of `fromBytes` is given rounds enough for every array and every start: the reader
-- returns attributes or throws one of the exceptions of the code.
pub layout_from_bytes_total : (b : List ℕ) (i : ℕ) → layout_from_bytes b i ≢ throws out_of_fuel
unfolding layout_from_bytes
layout_from_bytes_total b i h =
    grind (arith, read_next-fuel, read_header-fuel, segs_all_from_bytes-fuel)
