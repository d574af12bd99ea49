-- ===== src/BigEndian/RoundTrip.antt =====
-- What the functions of big-endian.ts write and read, by the digits of a number in base 256.
use core_3nweb_client_lib.Base.{
  ℕ, zero, suc, ◌+◌, ◌*◌, ◌/◌, ◌%◌, ◌^◌, ◌<◌, bit_or, List, [], ◌∷◌, ◌++◌, length, length-append,
  set, ok, ◌≡◌, refl, ap, ◌∙◌, arith, bit_or_shifted,
}
use core_3nweb_client_lib.BigEndian.{
  byte_at, ushr, shl, pack_uint_to2_bytes, uint_from2_bytes, pack_uint_to3_bytes, uint_from3_bytes,
  pack_uint_to4_bytes, uint_from4_bytes, pack_uint_to6_bytes, uint_from6_bytes, pack_uint_to8_bytes,
  uint_from8_bytes,
}
use native.Mathlib.Nat.{suc-add}

-- The last `n` digits of `u`, highest first.
abbrev pub digits : ℕ → ℕ → List ℕ
digits zero u = []
digits (suc n) u = (u / 256 ^ n % 256) ∷ digits n u

set-append : (p w : List ℕ) (k v : ℕ) → set (p ++ w) (length p + k) v ≡ p ++ set w k v
set-append [] w k v = ap (λ (t : ℕ). set w t v) (omega arith)
set-append (x ∷ p) w k v = rw suc-add (ap (◌∷◌ x) (set-append p w k v))

set-append_here : (p w : List ℕ) (v : ℕ) → set (p ++ w) (length p) v ≡ p ++ set w 0 v
set-append_here [] w v = refl
set-append_here (x ∷ p) w v = ap (◌∷◌ x) (set-append_here p w v)

pub byte_at-append : (p w : List ℕ) (k : ℕ) → byte_at (p ++ w) (length p + k) ≡ byte_at w k
byte_at-append [] w k = ap (byte_at w) (omega arith)
byte_at-append (x ∷ p) w k = rw suc-add (byte_at-append p w k)

pub byte_at-append_here : (p w : List ℕ) → byte_at (p ++ w) (length p) ≡ byte_at w 0
byte_at-append_here [] w = refl
byte_at-append_here (x ∷ p) w = byte_at-append_here p w

ruleset write_laws = (length-append, set-append_here, set-append)

ruleset read_laws = (length-append, byte_at-append_here, byte_at-append)

-- The shifts of a 32 bit half, and three bytes put together.
ushr8-byte : (x : ℕ) → ushr x 8 % 256 ≡ x / 256 % 256
ushr8-byte x = omega arith

ushr16-byte : (x : ℕ) → ushr x 16 % 256 ≡ x / 65536 % 256
ushr16-byte x = omega arith

ushr24-byte : (x : ℕ) → ushr x 24 % 256 ≡ x / 16777216 % 256
ushr24-byte x = omega arith

-- A byte under `<<` keeps all its ones, so `|` adds.
shl-byte : (a k m : ℕ) → m ≡ a * k → m < 2 ^ 32 → m % 2 ^ 32 ≡ a * k
shl-byte a k m e h = omega arith

or_two_lem : (a b : ℕ) → a < 256 → b < 256 → bit_or (shl a 8) b ≡ a * 256 + b
or_two_lem a b ha hb =
    ap (λ (t : ℕ). bit_or t b) (shl-byte a 256 (a * 256) refl (omega arith))
    ∙ bit_or_shifted 8 a b hb

or_three_lem :
    (a b c : ℕ)
    → a < 256
    → b < 256
    → c < 256
    → bit_or (bit_or (shl a 16) (shl b 8)) c ≡ a * 65536 + b * 256 + c
or_three_lem a b c ha hb hc =
    ap (λ (t : ℕ). bit_or t c) (two_bytes ∙ omega arith)
    ∙ bit_or_shifted 8 (a * 256 + b) c hc
    ∙ omega arith
  where
    two_bytes : bit_or (shl a 16) (shl b 8) ≡ a * 65536 + b * 256
    two_bytes =
        ap (λ (t : ℕ). bit_or t (shl b 8)) (shl-byte a 65536 (a * 65536) refl (omega arith))
        ∙ bit_or_shifted 16 a (shl b 8) (omega arith)
        ∙ omega arith

pub pack2_lem :
    (u : ℕ) (p q : List ℕ) (b0 b1 : ℕ)
    → u < 2 ^ 16
    → pack_uint_to2_bytes u (p ++ (b0 ∷ b1 ∷ q)) (length p) ≡ ok (p ++ (digits 2 u ++ q))
unfolding pack_uint_to2_bytes
pack2_lem u p q b0 b1 h = simp write_laws (ground (arith, ushr8-byte u))

pub pack3_lem :
    (u : ℕ) (p q : List ℕ) (b0 b1 b2 : ℕ)
    → u < 2 ^ 24
    → pack_uint_to3_bytes u (p ++ (b0 ∷ b1 ∷ b2 ∷ q)) (length p) ≡ ok (p ++ (digits 3 u ++ q))
unfolding pack_uint_to3_bytes
pack3_lem u p q b0 b1 b2 h = simp write_laws (ground (arith, ushr8-byte u, ushr16-byte u))

pub pack4_lem :
    (u : ℕ) (p q : List ℕ) (b0 b1 b2 b3 : ℕ)
    → u < 2 ^ 32
    → pack_uint_to4_bytes u (p ++ (b0 ∷ b1 ∷ b2 ∷ b3 ∷ q)) (length p) ≡ ok (p ++ (digits 4 u ++ q))
unfolding pack_uint_to4_bytes
pack4_lem u p q b0 b1 b2 b3 h =
    simp write_laws (ground (arith, ushr8-byte u, ushr16-byte u, ushr24-byte u))

pub pack6_lem :
    (u : ℕ) (p q : List ℕ) (b0 b1 b2 b3 b4 b5 : ℕ)
    → u < 2 ^ 48
    → pack_uint_to6_bytes u (p ++ (b0 ∷ b1 ∷ b2 ∷ b3 ∷ b4 ∷ b5 ∷ q)) (length p)
      ≡ ok (p ++ (digits 6 u ++ q))
unfolding pack_uint_to6_bytes
pack6_lem u p q b0 b1 b2 b3 b4 b5 h =
    let hi = u / 2 ^ 32 in
    let lo = u % 2 ^ 32 in
    simp write_laws (ground (arith, ushr8-byte hi, ushr8-byte lo, ushr16-byte lo, ushr24-byte lo))

pub pack8_lem :
    (u : ℕ) (p q : List ℕ) (b0 b1 b2 b3 b4 b5 b6 b7 : ℕ)
    → u < 2 ^ 53
    → pack_uint_to8_bytes u (p ++ (b0 ∷ b1 ∷ b2 ∷ b3 ∷ b4 ∷ b5 ∷ b6 ∷ b7 ∷ q)) (length p)
      ≡ ok (p ++ (digits 8 u ++ q))
unfolding pack_uint_to8_bytes
pack8_lem u p q b0 b1 b2 b3 b4 b5 b6 b7 h =
    let hi = u / 2 ^ 32 in
    let lo = u % 2 ^ 32 in
    simp write_laws (
      ground (
        arith,
        ushr8-byte hi,
        ushr16-byte hi,
        ushr24-byte hi,
        ushr8-byte lo,
        ushr16-byte lo,
        ushr24-byte lo,
      ))

module _ (u : ℕ) (p q : List ℕ) where
  pub from2_lem : u < 2 ^ 16 → uint_from2_bytes (p ++ (digits 2 u ++ q)) (length p) ≡ ok u
  unfolding uint_from2_bytes
  from2_lem h = simp read_laws (ground (arith, or_two_lem (u / 256 % 256) (u / 1 % 256)))

  pub from3_lem : u < 2 ^ 24 → uint_from3_bytes (p ++ (digits 3 u ++ q)) (length p) ≡ ok u
  unfolding uint_from3_bytes
  from3_lem h =
      simp read_laws (ground (arith, or_three_lem (u / 65536 % 256) (u / 256 % 256) (u / 1 % 256)))

  pub from4_lem : u < 2 ^ 32 → uint_from4_bytes (p ++ (digits 4 u ++ q)) (length p) ≡ ok u
  unfolding uint_from4_bytes
  from4_lem h =
      simp read_laws (ground (arith, or_three_lem (u / 65536 % 256) (u / 256 % 256) (u / 1 % 256)))

  pub from6_lem : u < 2 ^ 48 → uint_from6_bytes (p ++ (digits 6 u ++ q)) (length p) ≡ ok u
  unfolding uint_from6_bytes
  from6_lem h = simp read_laws (
      ground (
        arith,
        or_two_lem (u / 256 ^ 5 % 256) (u / 256 ^ 4 % 256),
        or_three_lem (u / 65536 % 256) (u / 256 % 256) (u / 1 % 256),
      ))

  pub from8_lem : u < 2 ^ 53 → uint_from8_bytes (p ++ (digits 8 u ++ q)) (length p) ≡ ok u
  unfolding uint_from8_bytes
  from8_lem h = simp read_laws (
      ground (
        arith,
        or_three_lem (u / 256 ^ 6 % 256) (u / 256 ^ 5 % 256) (u / 256 ^ 4 % 256),
        or_three_lem (u / 65536 % 256) (u / 256 % 256) (u / 1 % 256),
      ))
