-- ===== src/V1Format/Decoding.antt =====
-- What v1-obj-file-format.ts reads back from the bytes of a chunk.
use core_3nweb_client_lib.Base.{
  ℕ, ◌+◌, ◌^◌, ◌<◌, ◌≡◌, refl, sym, ◌∙◌, subst, arith, List, [], ◌∷◌, ◌++◌, length, length-append,
  append_assoc, ok, drop, Outcome-cases, inl, inr,
}
use core_3nweb_client_lib.BigEndian.{uint_from8_bytes}
use core_3nweb_client_lib.BigEndian.RoundTrip.{digits, from8_lem, byte_at-append_here}
use core_3nweb_client_lib.SegsChunk.{SegsChunk, new_endless, new, base, new_on_disk, base_on_disk}
use core_3nweb_client_lib.V1Format.{ReadChunk, chunk, segs_from_bytes, segs_to_bytes}
use core_3nweb_client_lib.V1Format.Encoding.{
  encode, IsStorable, segs_to_bytes-encode, segs_to_bytes-endless,
}

-- A number is read `w` bytes behind the front `p`.
pub read8_at :
    (u : ℕ) (p w q : List ℕ) (j : ℕ)
    → u < 2 ^ 53
    → j ≡ length p + length w
    → uint_from8_bytes (p ++ (w ++ (digits 8 u ++ q))) j ≡ ok u
read8_at u p w q j h e =
    subst (λ (k : ℕ). uint_from8_bytes (p ++ (w ++ (digits 8 u ++ q))) k ≡ ok u)
      (length-append p w ∙ sym e)
      (subst (λ s. uint_from8_bytes s (length (p ++ w)) ≡ ok u) (append_assoc p w (digits 8 u ++ q))
        (from8_lem u (p ++ w) q h))

-- The reader takes back the bytes of a chunk at any place of an array.
pub segs_from_bytes-encode :
    (s : SegsChunk) (p q : List ℕ)
    → IsStorable s
    → segs_from_bytes (p ++ (encode s ++ q)) (length p) ≡ ok (chunk s, length (encode s))
unfolding segs_from_bytes
segs_from_bytes-encode (new_endless o) p q h = absurd h
segs_from_bytes-encode (new o l) p q (ho, hl) =
    rw
      (
        byte_at-append_here p (encode (new o l) ++ q),
        read8_at o p (0 ∷ []) (digits 8 l ++ q) (length p + 1) ho refl,
        read8_at l p (0 ∷ digits 8 o) q (length p + 9) hl refl,
      )
      (ground arith)
segs_from_bytes-encode (base o l b) p q (ho, hl, hb) =
    rw
      (
        byte_at-append_here p (encode (base o l b) ++ q),
        read8_at o p (4 ∷ []) (digits 8 l ++ (digits 8 b ++ q)) (length p + 1) ho refl,
        read8_at l p (4 ∷ digits 8 o) (digits 8 b ++ q) (length p + 9) hl refl,
        read8_at b p (4 ∷ (digits 8 o ++ digits 8 l)) q (length p + 9 + 8) hb (omega arith),
      )
      (ground arith)
segs_from_bytes-encode (new_on_disk o l f) p q (ho, hl, hf) =
    rw
      (
        byte_at-append_here p (encode (new_on_disk o l f) ++ q),
        read8_at o p (2 ∷ []) (digits 8 l ++ (digits 8 f ++ q)) (length p + 1) ho refl,
        read8_at l p (2 ∷ digits 8 o) (digits 8 f ++ q) (length p + 9) hl refl,
        read8_at f p (2 ∷ (digits 8 o ++ digits 8 l)) q (length p + 9 + 8) hf (omega arith),
      )
      (ground arith)
segs_from_bytes-encode (base_on_disk o l b f) p q (ho, hl, hb, hf) =
    let rest = digits 8 f ++ (digits 8 b ++ q) in
    rw
      (
        byte_at-append_here p (encode (base_on_disk o l b f) ++ q),
        read8_at o p (6 ∷ []) (digits 8 l ++ rest) (length p + 1) ho refl,
        read8_at l p (6 ∷ digits 8 o) rest (length p + 9) hl refl,
        read8_at f p (6 ∷ (digits 8 o ++ digits 8 l)) (digits 8 b ++ q) (length p + 9 + 8) hf
            (omega arith),
        read8_at b p (6 ∷ (digits 8 o ++ (digits 8 l ++ digits 8 f))) q (length p + 9 + 8 + 8) hb
            (omega arith),
      )
      (ground arith)

read_flag_zero :
    (o : ℕ) (r : List ℕ) (c : ReadChunk) (n : ℕ)
    → o < 2 ^ 53
    → segs_from_bytes (0 ∷ (digits 8 o ++ r)) 0 ≡ ok (c, n)
    → (g : ℕ) × (c ≡ chunk (new o g))
unfolding segs_from_bytes
read_flag_zero o r c n ho h =
    let b = 0 ∷ (digits 8 o ++ r) in
    let read_ofs = read8_at o [] (0 ∷ []) r 1 ho refl in
    elim (Outcome-cases (uint_from8_bytes b 9)) [
      | inl (g, e) ↦ (g, ground (arith, read_ofs, e))
      | inr (x, e) ↦ absurd (ground (arith, read_ofs, e))
    ]

module _ (alloc : ℕ → List ℕ) (length-alloc : (n : ℕ) → length (alloc n) ≡ n) where
  -- A chunk that has a length and safe integers for its numbers is written without an exception,
  -- and its bytes are read back as that chunk, at any place of any array, whatever stood in the
  -- memory that the writer was given.
  pub segs_from_bytes-segs_to_bytes :
      (s : SegsChunk)
      → IsStorable s
      → (b : List ℕ) × (segs_to_bytes alloc s ≡ ok b)
        × ((p q : List ℕ) → segs_from_bytes (p ++ (b ++ q)) (length p) ≡ ok (chunk s, length b))
  segs_from_bytes-segs_to_bytes s h =
      (encode s, segs_to_bytes-encode alloc length-alloc s h, λ p q. segs_from_bytes-encode s p q h)

  -- An endless chunk never comes back: whenever the bytes written for it are read without an
  -- exception, the result is a finite new chunk at the same offset, of some length.
  pub endless_read_as_new :
      (o : ℕ) (b : List ℕ) (c : ReadChunk) (n : ℕ)
      → o < 2 ^ 53
      → segs_to_bytes alloc (new_endless o) ≡ ok b
      → segs_from_bytes b 0 ≡ ok (c, n)
      → (g : ℕ) × (c ≡ chunk (new o g))
  endless_read_as_new o b c n ho written read = read_flag_zero o (drop 9 (alloc 17)) c n ho (
      subst (λ t. segs_from_bytes t 0 ≡ ok (c, n))
        (cc (segs_to_bytes-endless alloc length-alloc o ho)) read)
