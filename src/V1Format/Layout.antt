-- ===== src/V1Format/Layout.antt =====
-- The bytes of a whole layout, as v1-obj-file-format.ts writes them.
use core_3nweb_client_lib.Base.{
  ℕ, suc, ◌+◌, ◌%◌, ◌^◌, ◌≤◌, ◌<◌, ◌≡◌, refl, sym, ap, ◌∙◌, subst, arith, List, [], ◌∷◌, ◌++◌, map,
  length, length-append, length-drop, length-take, take-append-drop, append_assoc, append-nil, ok,
  drop, take, All, Option, none, some,
}
use core_3nweb_client_lib.BigEndian.{pack_uint_to4_bytes, pack_uint_to8_bytes}
use core_3nweb_client_lib.BigEndian.RoundTrip.{digits}
use core_3nweb_client_lib.BigEndian.Stores.{pack4_window}
use core_3nweb_client_lib.SegsChunk.{SegsChunk, HeaderChunkInfo}
use core_3nweb_client_lib.V1Format.{
  Attrs, set_bytes, set_all, set_present, total_len_of, present_len, assemble, header_to_bytes,
  segs_all_to_bytes, base_bytes, header_bytes, layout_flag, layout_to_bytes,
}
use core_3nweb_client_lib.V1Format.Encoding.{
  encode, IsStorable, segs_to_bytes-encode, pack8_onto, nil_of_length,
}

abbrev pub concat : List (List ℕ) → List ℕ
concat [] = []
concat (c ∷ cs) = c ++ concat cs

-- Bytes that may be absent.
abbrev pub present : Option (List ℕ) → List ℕ
present none = []
present (some b) = b

abbrev pub base_part : Option ℕ → Option (List ℕ)
base_part none = none
base_part (some v) = some (digits 8 v)

abbrev pub header_part : Option HeaderChunkInfo → Option (List ℕ)
header_part none = none
header_part (some h) = some (digits 4 h.len ++ digits 8 h.file_ofs)

abbrev pub encode_layout : Attrs SegsChunk → List ℕ
encode_layout a =
    layout_flag a
    ∷ (present (base_part a.base_version)
        ++ (present (header_part a.header_chunk) ++ concat (map encode a.segs_chunks)))

abbrev pub IsSafeBase : Option ℕ → Type 0
IsSafeBase none = Unit
IsSafeBase (some v) = v < 2 ^ 53

abbrev pub IsSafeHeader : Option HeaderChunkInfo → Type 0
IsSafeHeader none = Unit
IsSafeHeader (some h) = (h.len < 2 ^ 32) × (h.file_ofs < 2 ^ 53)

-- Every number fits its bytes, and no chunk is endless.
pub record IsStorableLayout (a : Attrs SegsChunk) : Type 0 where
  pub safe_base : IsSafeBase a.base_version
  pub safe_header : IsSafeHeader a.header_chunk
  pub storable : All IsStorable a.segs_chunks

drop-append : (p r : List ℕ) → drop (length p) (p ++ r) ≡ r
drop-append [] r = refl
drop-append (x ∷ p) r = drop-append p r

take-append : (p r : List ℕ) → take (length p) (p ++ r) ≡ p
take-append [] r = refl
take-append (x ∷ p) r = ap (◌∷◌ x) (take-append p r)

-- Bytes set behind the front `p` move into the rest `r` of the array.
set_bytes_onto :
    (p r w : List ℕ)
    → length w ≤ length r
    → set_bytes (p ++ r) w (length p) ≡ ok (p ++ (w ++ drop (length w) r))
unfolding set_bytes
set_bytes_onto p r w h = ground (arith, length-append p r, take-append p r, drop-append p r)

pack4_whole :
    (u : ℕ) (m : List ℕ)
    → u < 2 ^ 32
    → 4 ≤ length m
    → pack_uint_to4_bytes u m 0 ≡ ok (digits 4 u ++ drop 4 m)
pack4_whole u m h fits =
    subst (λ s. pack_uint_to4_bytes u s 0 ≡ ok (digits 4 u ++ drop 4 m)) (take-append-drop 4 m)
      (pack4_window u [] (take 4 m) (drop 4 m) h (omega (arith, length-take 4 m)))

layout_flag-lt : (a : Attrs SegsChunk) → layout_flag a < 256
layout_flag-lt a = ground arith

set_all_onto :
    (cs : List (List ℕ)) (p r : List ℕ) (j : ℕ)
    → j ≡ length p
    → length r ≡ total_len_of cs
    → set_all (p ++ r) j cs ≡ ok (p ++ concat cs)
unfolding set_all total_len_of
set_all_onto [] p r j e h = rw (nil_of_length r h)
set_all_onto (c ∷ cs) p r j e h =
    rw (e, set_bytes_onto p r c (omega arith), ← append_assoc p c (drop (length c) r))
      (set_all_onto cs (p ++ c) (drop (length c) r) (length p + length c) (sym (length-append p c))
          (omega (arith, length-drop (length c) r))
        ∙ ap ok (append_assoc p c (concat cs)))

set_present_onto :
    (o : Option (List ℕ)) (p r : List ℕ)
    → present_len o ≤ length r
    → set_present o (p ++ r, length p)
      ≡ ok ((p ++ present o) ++ drop (present_len o) r, length (p ++ present o))
unfolding set_present
set_present_onto none p r h = rw append-nil
set_present_onto (some b) p r h =
    rw (set_bytes_onto p r b h, append_assoc p b (drop (length b) r), length-append p b)

-- The flag, then the parts one behind the other, fill an array of their total length.
assemble-concat :
    (flag : ℕ) (base_b header_b : Option (List ℕ)) (cs : List (List ℕ)) (m : List ℕ)
    → flag < 256
    → length m ≡ 1 + present_len base_b + present_len header_b + total_len_of cs
    → assemble flag base_b header_b cs m
      ≡ ok (flag ∷ (present base_b ++ (present header_b ++ concat cs)))
unfolding assemble
assemble-concat flag bb hb cs [] hf e = absurd (omega arith)
assemble-concat flag bb hb cs (x ∷ r) hf e =
    rw
      (
        small,
        set_present_onto bb (flag ∷ []) r (omega arith),
        set_present_onto hb (flag ∷ present bb) (drop (present_len bb) r)
            (omega (arith, length-drop (present_len bb) r)),
      )
      (set_all_onto cs (flag ∷ (present bb ++ present hb))
          (drop (present_len hb) (drop (present_len bb) r))
          (suc (length (present bb ++ present hb))) refl
          (omega (
            arith,
            length-drop (present_len hb) (drop (present_len bb) r),
            length-drop (present_len bb) r,
          ))
        ∙ ap (λ t. ok (flag ∷ t)) (append_assoc (present bb) (present hb) (concat cs)))
  where
    small : flag % 256 ≡ flag
    small = omega arith

module _ (alloc : ℕ → List ℕ) (length-alloc : (n : ℕ) → length (alloc n) ≡ n) where
  whole8 : (v : ℕ) → v < 2 ^ 53 → pack_uint_to8_bytes v (alloc 8) 0 ≡ ok (digits 8 v)
  whole8 v h =
      pack8_onto v [] (alloc 8) h (omega (arith, length-alloc 8))
      ∙ rw (
          nil_of_length (drop 8 (alloc 8)) (omega (arith, length-drop 8 (alloc 8), length-alloc 8)))

  header_to_bytes-encode :
      (h : HeaderChunkInfo)
      → h.len < 2 ^ 32
      → h.file_ofs < 2 ^ 53
      → header_to_bytes alloc h ≡ ok (digits 4 h.len ++ digits 8 h.file_ofs)
  unfolding header_to_bytes
  header_to_bytes-encode h hl hf =
      let r = drop 4 (alloc 12) in
      let fits : 8 ≤ length r = omega (arith, length-drop 4 (alloc 12), length-alloc 12) in
      rw (
        pack4_whole h.len (alloc 12) hl (omega (arith, length-alloc 12)),
        pack8_onto h.file_ofs (digits 4 h.len) r hf fits,
        nil_of_length (drop 8 r)
            (omega (arith, length-drop 8 r, length-drop 4 (alloc 12), length-alloc 12)),
      )

  segs_all_to_bytes-encode :
      (ss : List SegsChunk) → All IsStorable ss → segs_all_to_bytes alloc ss ≡ ok (map encode ss)
  unfolding segs_all_to_bytes
  segs_all_to_bytes-encode [] h = refl
  segs_all_to_bytes-encode (s ∷ ss) (h, hs) =
      rw (segs_to_bytes-encode alloc length-alloc s h, segs_all_to_bytes-encode ss hs)

  base_bytes-part : (v : Option ℕ) → IsSafeBase v → base_bytes alloc v ≡ ok (base_part v)
  unfolding base_bytes
  base_bytes-part none h = refl
  base_bytes-part (some v) h = rw (whole8 v h)

  header_bytes-part :
      (v : Option HeaderChunkInfo) → IsSafeHeader v → header_bytes alloc v ≡ ok (header_part v)
  unfolding header_bytes
  header_bytes-part none h = refl
  header_bytes-part (some v) (hl, hf) = rw (header_to_bytes-encode v hl hf)

  -- A layout is written byte for byte as `encode_layout` says, over whatever the memory held.
  pub layout_to_bytes-encode :
      (a : Attrs SegsChunk) → IsStorableLayout a → layout_to_bytes alloc a ≡ ok (encode_layout a)
  unfolding layout_to_bytes
  layout_to_bytes-encode a h =
      rw
        (
          base_bytes-part a.base_version h.safe_base,
          header_bytes-part a.header_chunk h.safe_header,
          segs_all_to_bytes-encode a.segs_chunks h.storable,
        )
        (assemble-concat (layout_flag a) (base_part a.base_version) (header_part a.header_chunk)
          (map encode a.segs_chunks) _ (layout_flag-lt a) (length-alloc _))
