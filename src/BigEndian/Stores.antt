-- ===== src/BigEndian/Stores.antt =====
-- The functions of big-endian.ts at any index of any array, by what a write replaces.
use core_3nweb_client_lib.Base.{
  ℕ, ◌+◌, ◌^◌, ◌≤◌, ◌<◌, List, [], ◌∷◌, ◌++◌, length, length-take, length-drop, take, drop,
  take-append-drop, Outcome, ok, ◌≡◌, ap, ◌∙◌, subst, arith,
}
use core_3nweb_client_lib.BigEndian.{
  BytesError, pack_uint_to2_bytes, uint_from2_bytes, pack_uint_to3_bytes, uint_from3_bytes,
  pack_uint_to4_bytes, uint_from4_bytes, pack_uint_to6_bytes, uint_from6_bytes, pack_uint_to8_bytes,
  uint_from8_bytes,
}
use core_3nweb_client_lib.BigEndian.RoundTrip.{
  digits, pack2_lem, from2_lem, pack3_lem, from3_lem, pack4_lem, from4_lem, pack6_lem, from6_lem,
  pack8_lem, from8_lem,
}

-- The array with `w` in place of as many bytes from index `i` on.
abbrev pub overwrite : List ℕ → ℕ → List ℕ → List ℕ
overwrite b i w = take i b ++ (w ++ drop (length w) (drop i b))

module _ (b : List ℕ) (i : ℕ) where
  starts : (n : ℕ) → i + n ≤ length b → length (take i b) ≡ i
  starts n h = omega (arith, length-take i b)

  -- A write that is known behind every front is known at every index.
  write_lem :
      (pack : List ℕ → ℕ → Outcome BytesError (List ℕ)) (w : List ℕ)
      → i + length w ≤ length b
      → ((p v q : List ℕ)
          → length v ≡ length w
          → pack (p ++ (v ++ q)) (length p) ≡ ok (p ++ (w ++ q)))
      → pack b i ≡ ok (overwrite b i w)
  write_lem pack w h known =
      subst (λ s. pack s i ≡ ok (overwrite b i w)) (split (length w))
        (subst
          (λ k.
            pack (take i b ++ (take (length w) (drop i b) ++ drop (length w) (drop i b))) k
            ≡ ok (overwrite b i w))
          (starts (length w) h)
          (known (take i b) (take (length w) (drop i b)) (drop (length w) (drop i b))
            (omega (arith, length-take (length w) (drop i b), length-drop i b))))
    where
      split : (n : ℕ) → take i b ++ (take n (drop i b) ++ drop n (drop i b)) ≡ b
      split n = ap (◌++◌ (take i b)) (take-append-drop n (drop i b)) ∙ take-append-drop i b

  read_lem :
      (read : List ℕ → ℕ → Outcome BytesError ℕ) (w : List ℕ) (u : ℕ)
      → i + length w ≤ length b
      → ((p q : List ℕ) → read (p ++ (w ++ q)) (length p) ≡ ok u)
      → read (overwrite b i w) i ≡ ok u
  read_lem read w u h known =
      subst (λ k. read (overwrite b i w) k ≡ ok u) (starts (length w) h)
        (known (take i b) (drop (length w) (drop i b)))

-- The writes over a window given as a list of the right length.
pack2_window :
    (u : ℕ) (p w q : List ℕ)
    → u < 2 ^ 16
    → length w ≡ 2
    → pack_uint_to2_bytes u (p ++ (w ++ q)) (length p) ≡ ok (p ++ (digits 2 u ++ q))
pack2_window u p (b0 ∷ b1 ∷ []) q h e = pack2_lem u p q b0 b1 h
pack2_window u p w q h e = absurd (omega arith)

pack3_window :
    (u : ℕ) (p w q : List ℕ)
    → u < 2 ^ 24
    → length w ≡ 3
    → pack_uint_to3_bytes u (p ++ (w ++ q)) (length p) ≡ ok (p ++ (digits 3 u ++ q))
pack3_window u p (b0 ∷ b1 ∷ b2 ∷ []) q h e = pack3_lem u p q b0 b1 b2 h
pack3_window u p w q h e = absurd (omega arith)

pub pack4_window :
    (u : ℕ) (p w q : List ℕ)
    → u < 2 ^ 32
    → length w ≡ 4
    → pack_uint_to4_bytes u (p ++ (w ++ q)) (length p) ≡ ok (p ++ (digits 4 u ++ q))
pack4_window u p (b0 ∷ b1 ∷ b2 ∷ b3 ∷ []) q h e = pack4_lem u p q b0 b1 b2 b3 h
pack4_window u p w q h e = absurd (omega arith)

pack6_window :
    (u : ℕ) (p w q : List ℕ)
    → u < 2 ^ 48
    → length w ≡ 6
    → pack_uint_to6_bytes u (p ++ (w ++ q)) (length p) ≡ ok (p ++ (digits 6 u ++ q))
pack6_window u p (b0 ∷ b1 ∷ b2 ∷ b3 ∷ b4 ∷ b5 ∷ []) q h e = pack6_lem u p q b0 b1 b2 b3 b4 b5 h
pack6_window u p w q h e = absurd (omega arith)

pub pack8_window :
    (u : ℕ) (p w q : List ℕ)
    → u < 2 ^ 53
    → length w ≡ 8
    → pack_uint_to8_bytes u (p ++ (w ++ q)) (length p) ≡ ok (p ++ (digits 8 u ++ q))
pack8_window u p (b0 ∷ b1 ∷ b2 ∷ b3 ∷ b4 ∷ b5 ∷ b6 ∷ b7 ∷ []) q h e =
    pack8_lem u p q b0 b1 b2 b3 b4 b5 b6 b7 h
pack8_window u p w q h e = absurd (omega arith)

module _ (u : ℕ) (b : List ℕ) (i : ℕ) where
  -- Where the two bytes fit into the array, packing a number of 16 bits at index i replaces exactly
  -- them by the number's base 256 digits, and reading at i gives the number back.
  pub from2-pack2 :
      u < 2 ^ 16
      → i + 2 ≤ length b
      → (pack_uint_to2_bytes u b i ≡ ok (overwrite b i (digits 2 u)))
        × (uint_from2_bytes (overwrite b i (digits 2 u)) i ≡ ok u)
  from2-pack2 h fits = (
    write_lem b i (pack_uint_to2_bytes u) (digits 2 u) fits (λ p w q. pack2_window u p w q h),
    read_lem b i uint_from2_bytes (digits 2 u) u fits (λ p q. from2_lem u p q h),
  )

  -- The same of three bytes and a number of 24 bits.
  pub from3-pack3 :
      u < 2 ^ 24
      → i + 3 ≤ length b
      → (pack_uint_to3_bytes u b i ≡ ok (overwrite b i (digits 3 u)))
        × (uint_from3_bytes (overwrite b i (digits 3 u)) i ≡ ok u)
  from3-pack3 h fits = (
    write_lem b i (pack_uint_to3_bytes u) (digits 3 u) fits (λ p w q. pack3_window u p w q h),
    read_lem b i uint_from3_bytes (digits 3 u) u fits (λ p q. from3_lem u p q h),
  )

  -- Where four bytes fit into the array, packing a number of 32 bits at index i replaces exactly
  -- them by the number's base 256 digits, and reading at i gives the number back.
  pub from4-pack4 :
      u < 2 ^ 32
      → i + 4 ≤ length b
      → (pack_uint_to4_bytes u b i ≡ ok (overwrite b i (digits 4 u)))
        × (uint_from4_bytes (overwrite b i (digits 4 u)) i ≡ ok u)
  from4-pack4 h fits = (
    write_lem b i (pack_uint_to4_bytes u) (digits 4 u) fits (λ p w q. pack4_window u p w q h),
    read_lem b i uint_from4_bytes (digits 4 u) u fits (λ p q. from4_lem u p q h),
  )

  -- Where six bytes fit into the array, packing a number of 48 bits at index i replaces exactly
  -- them by the number's base 256 digits, and reading at i gives the number back.
  pub from6-pack6 :
      u < 2 ^ 48
      → i + 6 ≤ length b
      → (pack_uint_to6_bytes u b i ≡ ok (overwrite b i (digits 6 u)))
        × (uint_from6_bytes (overwrite b i (digits 6 u)) i ≡ ok u)
  from6-pack6 h fits = (
    write_lem b i (pack_uint_to6_bytes u) (digits 6 u) fits (λ p w q. pack6_window u p w q h),
    read_lem b i uint_from6_bytes (digits 6 u) u fits (λ p q. from6_lem u p q h),
  )

  -- Where eight bytes fit into the array, packing a safe integer (below 2 ^ 53) at index i replaces
  -- exactly them by the number's base 256 digits, and reading at i gives the number back.
  pub from8-pack8 :
      u < 2 ^ 53
      → i + 8 ≤ length b
      → (pack_uint_to8_bytes u b i ≡ ok (overwrite b i (digits 8 u)))
        × (uint_from8_bytes (overwrite b i (digits 8 u)) i ≡ ok u)
  from8-pack8 h fits = (
    write_lem b i (pack_uint_to8_bytes u) (digits 8 u) fits (λ p w q. pack8_window u p w q h),
    read_lem b i uint_from8_bytes (digits 8 u) u fits (λ p q. from8_lem u p q h),
  )
