-- ===== src/V1Format/Reading.antt =====
-- What v1-obj-file-format.ts reads back from the bytes of a whole layout.
use core_3nweb_client_lib.Base.{
  ℕ, zero, suc, ◌+◌, ◌^◌, ◌≤◌, ◌<◌, ◌≡◌, refl, sym, ◌∙◌, subst, arith, List, [], ◌∷◌, ◌++◌, map,
  length, length-append, append_assoc, append-nil, ok, All, Option, none, some, Bool, true, false,
  not, ◌==◌, ◌&&◌, lt→ltb, ge→ltb,
}
use core_3nweb_client_lib.BigEndian.RoundTrip.{digits, from4_lem}
use core_3nweb_client_lib.SegsChunk.{SegsChunk, HeaderChunkInfo}
use core_3nweb_client_lib.V1Format.{
  Attrs, ReadChunk, chunk, layout_flag, has_bit, layout_to_bytes, segs_all_from_bytes, read_header,
  read_next, header_from_bytes, layout_from_bytes,
}
use core_3nweb_client_lib.V1Format.Encoding.{encode, IsStorable}
use core_3nweb_client_lib.V1Format.Decoding.{read8_at, segs_from_bytes-encode}
use core_3nweb_client_lib.V1Format.Layout.{
  concat, present, base_part, header_part, encode_layout, IsSafeBase, IsSafeHeader,
  IsStorableLayout, layout_to_bytes-encode,
}

abbrev has_base : Attrs SegsChunk → Bool
has_base a = elim a.base_version [ none ↦ false | some v ↦ true ]

abbrev has_header : Attrs SegsChunk → Bool
has_header a = elim a.header_chunk [ none ↦ false | some h ↦ true ]

flag_bits :
    (a : Attrs SegsChunk)
    → (has_bit (layout_flag a) 2 ≡ has_base a)
      × (has_bit (layout_flag a) 1 ≡ has_header a)
      × (has_bit (layout_flag a) 16 ≡ (has_header a && a.file_complete))
      × (has_bit (layout_flag a) 4 ≡ a.segs_layout_frozen)
      × (has_bit (layout_flag a) 8 ≡ a.size_unknown)
flag_bits a = ground arith

encode-pos : (s : SegsChunk) → 0 < length (encode s)
encode-pos s = ground arith

segs_all_from_bytes-encode :
    (ss : List SegsChunk) (fuel : ℕ) (p : List ℕ) (i : ℕ)
    → i ≡ length p
    → All IsStorable ss
    → length ss ≤ fuel
    → segs_all_from_bytes fuel (p ++ concat (map encode ss)) i ≡ ok (map chunk ss)
unfolding segs_all_from_bytes
segs_all_from_bytes-encode [] zero p i e h hf =
    rw (ge→ltb i (length (p ++ [])) (omega (arith, length-append p [])))
segs_all_from_bytes-encode [] (suc fuel) p i e h hf =
    rw (ge→ltb i (length (p ++ [])) (omega (arith, length-append p [])))
segs_all_from_bytes-encode (s ∷ ss) zero p i e h hf = absurd (omega arith)
segs_all_from_bytes-encode (s ∷ ss) (suc fuel) p i e (h, hs) hf =
    let rest = concat (map encode ss) in
    rw (
      lt→ltb i (length (p ++ (encode s ++ rest))) (
          omega (
            arith,
            length-append p (encode s ++ rest),
            length-append (encode s) rest,
            encode-pos s,
          )),
      e,
      segs_from_bytes-encode s p rest h,
      ← append_assoc p (encode s) rest,
      segs_all_from_bytes-encode ss fuel (p ++ encode s) (length p + length (encode s))
          (sym (length-append p (encode s))) hs (omega arith),
    )

header_from_bytes-encode :
    (h : HeaderChunkInfo) (p q : List ℕ)
    → h.len < 2 ^ 32
    → h.file_ofs < 2 ^ 53
    → header_from_bytes (p ++ ((digits 4 h.len ++ digits 8 h.file_ofs) ++ q)) (length p)
      ≡ ok (h, 12)
unfolding header_from_bytes
header_from_bytes-encode h p q hl hf = rw (
  from4_lem h.len p (digits 8 h.file_ofs ++ q) hl,
  read8_at h.file_ofs p (digits 4 h.len) q (length p + 4) hf refl,
)

read_base :
    (v : Option ℕ) (p q : List ℕ) (c : Bool)
    → IsSafeBase v
    → c ≡ elim v [ none ↦ false | some n ↦ true ]
    → read_next c (p ++ (present (base_part v) ++ q)) (length p)
      ≡ ok (v, length (p ++ present (base_part v)))
unfolding read_next
read_base none p q c h e = rw (e, append-nil)
read_base (some v) p q c h e =
    rw (e, read8_at v p [] q (length p) h (omega arith), length-append p (digits 8 v))

read_header-encode :
    (v : Option HeaderChunkInfo) (p q : List ℕ) (c : Bool)
    → IsSafeHeader v
    → c ≡ elim v [ none ↦ false | some h ↦ true ]
    → read_header c (p ++ (present (header_part v) ++ q)) (length p)
      ≡ ok (v, length (p ++ present (header_part v)))
unfolding read_header
read_header-encode none p q c h e = rw (e, append-nil)
read_header-encode (some v) p q c (hl, hf) e = rw (
  e,
  header_from_bytes-encode v p q hl hf,
  length-append p (digits 4 v.len ++ digits 8 v.file_ofs),
)

length-concat-le : (ss : List SegsChunk) → length ss ≤ length (concat (map encode ss))
length-concat-le [] = omega arith
length-concat-le (s ∷ ss) =
    omega
      (arith, length-append (encode s) (concat (map encode ss)), encode-pos s, length-concat-le ss)

-- What comes back of a layout: the header's completeness only with a header, and the last
-- attribute for every flag but 0.
abbrev pub read_back : Attrs SegsChunk → Attrs ReadChunk
read_back a = record {
  file_complete = has_header a && a.file_complete;
  segs_chunks = map chunk a.segs_chunks;
  header_chunk = a.header_chunk;
  segs_layout_frozen = a.segs_layout_frozen;
  base_version = a.base_version;
  size_unknown = a.size_unknown;
  all_base_bytes_in_file = not (layout_flag a == 0);
}

module _ (flag : ℕ) (v : Option ℕ) (hd : Option HeaderChunkInfo) (ss : List SegsChunk)
    (hv : IsSafeBase v) (hh : IsSafeHeader hd) (hs : All IsStorable ss) where
  abbrev parts : List ℕ
  parts = present (base_part v) ++ (present (header_part hd) ++ concat (map encode ss))

  read_segs :
      (fuel : ℕ)
      → length ss ≤ fuel
      → segs_all_from_bytes fuel
          (flag ∷ parts)
          (suc (length (present (base_part v) ++ present (header_part hd))))
        ≡ ok (map chunk ss)
  read_segs fuel h =
      subst
        (λ b.
          segs_all_from_bytes fuel (flag ∷ b)
            (suc (length (present (base_part v) ++ present (header_part hd))))
          ≡ ok (map chunk ss))
        (append_assoc (present (base_part v)) (present (header_part hd)) (concat (map encode ss)))
        (segs_all_from_bytes-encode ss fuel
          (flag ∷ (present (base_part v) ++ present (header_part hd))) _ refl hs h)

  layout_from_bytes-parts :
      has_bit flag 2 ≡ elim v [ none ↦ false | some n ↦ true ]
      → has_bit flag 1 ≡ elim hd [ none ↦ false | some h ↦ true ]
      → layout_from_bytes (flag ∷ parts) 0
        ≡ ok (record {
          file_complete = has_bit flag 16;
          segs_chunks = map chunk ss;
          header_chunk = hd;
          segs_layout_frozen = has_bit flag 4;
          base_version = v;
          size_unknown = has_bit flag 8;
          all_base_bytes_in_file = not (flag == 0);
        })
  unfolding layout_from_bytes
  layout_from_bytes-parts e2 e1 =
      let bs = present (base_part v) in
      let hb = present (header_part hd) in
      let segs = concat (map encode ss) in
      rw (
        read_base v (flag ∷ []) (hb ++ segs) (has_bit flag 2) hv e2,
        read_header-encode hd (flag ∷ bs) segs (has_bit flag 1) hh e1,
        read_segs (length (flag ∷ parts)) (
            omega
              (arith, length-append bs (hb ++ segs), length-append hb segs, length-concat-le ss)),
      )

layout_from_bytes-encode :
    (a : Attrs SegsChunk)
    → IsStorableLayout a
    → layout_from_bytes (encode_layout a) 0 ≡ ok (read_back a)
layout_from_bytes-encode a h =
    let (f2, f1, f16, f4, f8) = flag_bits a in
    layout_from_bytes-parts (layout_flag a) a.base_version a.header_chunk a.segs_chunks h.safe_base
      h.safe_header h.storable f2 f1
    ∙ rw (f16, f4, f8)

-- Whatever the memory held, a layout without endless chunks whose numbers fit is written without an
-- exception, and its bytes are read back as the same chunks, header, base version, frozen and
-- size flags. The completeness comes back only where there is a header, and the last attribute
-- comes back as true for every flag byte but 0.
pub layout_from_bytes-layout_to_bytes :
    (alloc : ℕ → List ℕ)
    → ((n : ℕ) → length (alloc n) ≡ n)
    → (a : Attrs SegsChunk) → IsStorableLayout a
    → (b : List ℕ) × (layout_to_bytes alloc a ≡ ok b) × (layout_from_bytes b 0 ≡ ok (read_back a))
layout_from_bytes-layout_to_bytes alloc length-alloc a h =
    (encode_layout a, layout_to_bytes-encode alloc length-alloc a h, layout_from_bytes-encode a h)
