-- ===== src/V1Format/Encoding.antt =====
-- What v1-obj-file-format.ts writes for a chunk, as plain bytes.
use core_3nweb_client_lib.Base.{
  ℕ, suc, ◌^◌, ◌≤◌, ◌<◌, ◌≡◌, refl, subst, arith, List, [], ◌∷◌, ◌++◌, length, length-drop,
  length-take, take, drop, take-append-drop, ok,
}
use core_3nweb_client_lib.BigEndian.{pack_uint_to8_bytes}
use core_3nweb_client_lib.BigEndian.RoundTrip.{digits}
use core_3nweb_client_lib.BigEndian.Stores.{pack8_window}
use core_3nweb_client_lib.SegsChunk.{SegsChunk, new_endless, new, base, new_on_disk, base_on_disk}
use core_3nweb_client_lib.V1Format.{segs_to_bytes}

-- The bytes that stand for a chunk with a length.
abbrev pub encode : SegsChunk → List ℕ
encode (new_endless o) = 0 ∷ digits 8 o
encode (new o l) = 0 ∷ (digits 8 o ++ digits 8 l)
encode (base o l b) = 4 ∷ (digits 8 o ++ (digits 8 l ++ digits 8 b))
encode (new_on_disk o l f) = 2 ∷ (digits 8 o ++ (digits 8 l ++ digits 8 f))
encode (base_on_disk o l b f) = 6 ∷ (digits 8 o ++ (digits 8 l ++ (digits 8 f ++ digits 8 b)))

-- Every number of the chunk is a safe integer, and it has a length.
abbrev pub IsStorable : SegsChunk → Type 0
IsStorable (new_endless o) = ⊥
IsStorable (new o l) = (o < 2 ^ 53) × (l < 2 ^ 53)
IsStorable (base o l b) = (o < 2 ^ 53) × (l < 2 ^ 53) × (b < 2 ^ 53)
IsStorable (new_on_disk o l f) = (o < 2 ^ 53) × (l < 2 ^ 53) × (f < 2 ^ 53)
IsStorable (base_on_disk o l b f) = (o < 2 ^ 53) × (l < 2 ^ 53) × (b < 2 ^ 53) × (f < 2 ^ 53)

-- A number packed behind the bytes `p` moves into the rest `r` of the array.
pub pack8_onto :
    (u : ℕ) (p r : List ℕ)
    → u < 2 ^ 53
    → 8 ≤ length r
    → pack_uint_to8_bytes u (p ++ r) (length p) ≡ ok (p ++ (digits 8 u ++ drop 8 r))
pack8_onto u p r h fits =
    subst (λ s. pack_uint_to8_bytes u (p ++ s) (length p) ≡ ok (p ++ (digits 8 u ++ drop 8 r)))
      (take-append-drop 8 r)
      (pack8_window u p (take 8 r) (drop 8 r) h (omega (arith, length-take 8 r)))

pub uncons :
    (n : ℕ) (m : List ℕ) → length m ≡ suc n → (x : ℕ) × (r : List ℕ) × (m ≡ x ∷ r) × (length r ≡ n)
uncons n [] h = absurd (omega arith)
uncons n (x ∷ r) h = (x, r, refl, omega arith)

pub nil_of_length : (m : List ℕ) → length m ≡ 0 → m ≡ []
nil_of_length [] h = refl
nil_of_length (x ∷ m) h = absurd (omega arith)

-- Nothing is left of an array that has been written to its end.
dropped2 : (r : List ℕ) → length r ≡ 16 → drop 8 (drop 8 r) ≡ []
dropped2 r h = nil_of_length _ (omega (arith, length-drop 8 (drop 8 r), length-drop 8 r))

dropped3 : (r : List ℕ) → length r ≡ 24 → drop 8 (drop 8 (drop 8 r)) ≡ []
dropped3 r h =
    nil_of_length _
      (omega (arith, length-drop 8 (drop 8 (drop 8 r)), length-drop 8 (drop 8 r), length-drop 8 r))

dropped4 : (r : List ℕ) → length r ≡ 32 → drop 8 (drop 8 (drop 8 (drop 8 r))) ≡ []
dropped4 r h = nil_of_length _ (
    omega (
      arith,
      length-drop 8 (drop 8 (drop 8 (drop 8 r))),
      length-drop 8 (drop 8 (drop 8 r)),
      length-drop 8 (drop 8 r),
      length-drop 8 r,
    ))

module _ (o l : ℕ) (r : List ℕ) (flag : ℕ) (ho : o < 2 ^ 53) (hl : l < 2 ^ 53) where
  first_two :
      16 ≤ length r
      → (pack_uint_to8_bytes o (flag ∷ r) 1 ≡ ok (flag ∷ (digits 8 o ++ drop 8 r)))
        × (pack_uint_to8_bytes l (flag ∷ (digits 8 o ++ drop 8 r)) 9
            ≡ ok (flag ∷ (digits 8 o ++ (digits 8 l ++ drop 8 (drop 8 r)))))
  first_two h = (
    pack8_onto o (flag ∷ []) r ho (omega arith),
    pack8_onto l (flag ∷ digits 8 o) (drop 8 r) hl (omega (arith, length-drop 8 r)),
  )

  third :
      (u : ℕ)
      → 24 ≤ length r
      → u < 2 ^ 53
      → pack_uint_to8_bytes u (flag ∷ (digits 8 o ++ (digits 8 l ++ drop 8 (drop 8 r)))) 17
        ≡ ok (flag ∷ (digits 8 o ++ (digits 8 l ++ (digits 8 u ++ drop 8 (drop 8 (drop 8 r))))))
  third u h hu =
      pack8_onto u (flag ∷ (digits 8 o ++ digits 8 l)) (drop 8 (drop 8 r)) hu
        (omega (arith, length-drop 8 (drop 8 r), length-drop 8 r))

  fourth :
      (u v : ℕ)
      → 32 ≤ length r
      → v < 2 ^ 53
      → pack_uint_to8_bytes v
          (flag ∷ (digits 8 o ++ (digits 8 l ++ (digits 8 u ++ drop 8 (drop 8 (drop 8 r))))))
          25
        ≡ ok (
            flag
            ∷ (digits 8 o
                ++ (digits 8 l
                    ++ (digits 8 u ++ (digits 8 v ++ drop 8 (drop 8 (drop 8 (drop 8 r))))))))
  fourth u v h hv =
      pack8_onto v (flag ∷ (digits 8 o ++ (digits 8 l ++ digits 8 u))) (drop 8 (drop 8 (drop 8 r)))
        hv
        (omega
          (arith, length-drop 8 (drop 8 (drop 8 r)), length-drop 8 (drop 8 r), length-drop 8 r))

module _ (alloc : ℕ → List ℕ) (length-alloc : (n : ℕ) → length (alloc n) ≡ n) where
  -- A chunk with a length is written byte for byte as `encode` says, over whatever the memory held.
  pub segs_to_bytes-encode : (s : SegsChunk) → IsStorable s → segs_to_bytes alloc s ≡ ok (encode s)
  unfolding segs_to_bytes
  segs_to_bytes-encode (new_endless o) h = absurd h
  segs_to_bytes-encode (new o l) (ho, hl) =
      let (x, r, e, hr) = uncons 16 (alloc 17) (length-alloc 17) in
      let (p1, p2) = first_two o l r 0 ho hl (omega arith) in rw (e, p1, p2, dropped2 r hr)
  segs_to_bytes-encode (base o l b) (ho, hl, hb) =
      let (x, r, e, hr) = uncons 24 (alloc 25) (length-alloc 25) in
      let (p1, p2) = first_two o l r 4 ho hl (omega arith) in
      rw (e, p1, p2, third o l r 4 ho hl b (omega arith) hb, dropped3 r hr)
  segs_to_bytes-encode (new_on_disk o l f) (ho, hl, hf) =
      let (x, r, e, hr) = uncons 24 (alloc 25) (length-alloc 25) in
      let (p1, p2) = first_two o l r 2 ho hl (omega arith) in
      rw (e, p1, p2, third o l r 2 ho hl f (omega arith) hf, dropped3 r hr)
  segs_to_bytes-encode (base_on_disk o l b f) (ho, hl, hb, hf) =
      let (x, r, e, hr) = uncons 32 (alloc 33) (length-alloc 33) in
      let (p1, p2) = first_two o l r 6 ho hl (omega arith) in
      rw (
        e,
        p1,
        p2,
        third o l r 6 ho hl f (omega arith) hf,
        fourth o l r 6 ho hl f b (omega arith) hb,
        dropped4 r hr,
      )

  -- Of the 17 bytes of an endless chunk the last eight are left as the memory held them.
  pub segs_to_bytes-endless :
      (o : ℕ)
      → o < 2 ^ 53
      → segs_to_bytes alloc (new_endless o) ≡ ok (0 ∷ (digits 8 o ++ drop 9 (alloc 17)))
  unfolding segs_to_bytes
  segs_to_bytes-endless o ho =
      let (x, r, e, hr) = uncons 16 (alloc 17) (length-alloc 17) in
      rw (e, pack8_onto o (0 ∷ []) r ho (omega arith))
