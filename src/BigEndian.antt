-- ===== src/BigEndian.antt =====
-- ts-code/lib-common/big-endian.ts: unsigned integers stored big-endian in byte arrays. A buffer is
-- a list of bytes. A value is a non-negative integer; a write to an array returns the new array.
pub mod RoundTrip
pub mod Stores
mod Runs
use core_3nweb_client_lib.Base.{
  zero, suc, ℕ, ◌+◌, ◌-◌, ◌*◌, ◌/◌, ◌%◌, ◌^◌, bit_or, ltb, if◌then◌else◌, List, [], ◌∷◌, length,
  set, Outcome, ok, throws,
}

pub data BytesError : Type 0 where
  value_too_big array_too_short : BytesError

-- `x[i]`, which is only read below the array's length.
abbrev pub byte_at : List ℕ → ℕ → ℕ
byte_at [] i = 0
byte_at (x ∷ xs) zero = x
byte_at (x ∷ xs) (suc i) = byte_at xs i

-- `b[i] = u`: an element of a Uint8Array keeps the value modulo 256.
abbrev pub put_byte : List ℕ → ℕ → ℕ → List ℕ
put_byte b i u = set b i (u % 2 ^ 8)

-- `u >>> k`: the value modulo 2 ^ 32, shifted.
abbrev pub ushr : ℕ → ℕ → ℕ
ushr u k = u % 2 ^ 32 / 2 ^ k

-- `x << k` as a pattern of 32 bits. For a byte and k up to 16 the sign bit stays clear.
abbrev pub shl : ℕ → ℕ → ℕ
shl x k = x * 2 ^ k % 2 ^ 32

-- `Number.MAX_SAFE_INTEGER`
abbrev pub max_safe_integer : ℕ
max_safe_integer = 2 ^ 53 - 1

pub pack_uint_to2_bytes : ℕ → List ℕ → ℕ → Outcome BytesError (List ℕ)
pack_uint_to2_bytes u b i =
    if ltb 0xffff u
    then throws value_too_big
    else if ltb (length b) (i + 2)
    then throws array_too_short
    else ok (put_byte (put_byte b i (ushr u 8)) (i + 1) u)

pub uint_from2_bytes : List ℕ → ℕ → Outcome BytesError ℕ
uint_from2_bytes x i =
    if ltb (length x) (i + 2)
    then throws array_too_short
    else ok (bit_or (shl (byte_at x i) 8) (byte_at x (i + 1)))

pub pack_uint_to3_bytes : ℕ → List ℕ → ℕ → Outcome BytesError (List ℕ)
pack_uint_to3_bytes u b i =
    if ltb 0xffffff u
    then throws value_too_big
    else if ltb (length b) (i + 3)
    then throws array_too_short
    else ok (put_byte (put_byte (put_byte b i (ushr u 16)) (i + 1) (ushr u 8)) (i + 2) u)

-- `(x[i] << 16) | (x[i+1] << 8) | x[i+2]`
abbrev pub or_three : List ℕ → ℕ → ℕ → ℕ → ℕ
or_three x i j k = bit_or (bit_or (shl (byte_at x i) 16) (shl (byte_at x j) 8)) (byte_at x k)

pub uint_from3_bytes : List ℕ → ℕ → Outcome BytesError ℕ
uint_from3_bytes x i =
    if ltb (length x) (i + 3) then throws array_too_short else ok (or_three x i (i + 1) (i + 2))

pub pack_uint_to4_bytes : ℕ → List ℕ → ℕ → Outcome BytesError (List ℕ)
pack_uint_to4_bytes u b i =
    if ltb 0xffffffff u
    then throws value_too_big
    else if ltb (length b) (i + 4)
    then throws array_too_short
    else (let b1 = put_byte b i (ushr u 24) in
        let b2 = put_byte b1 (i + 1) (ushr u 16) in
        let b3 = put_byte b2 (i + 2) (ushr u 8) in ok (put_byte b3 (i + 3) u))

pub uint_from4_bytes : List ℕ → ℕ → Outcome BytesError ℕ
uint_from4_bytes x i =
    if ltb (length x) (i + 4)
    then throws array_too_short
    else ok (byte_at x i * 0x1000000 + or_three x (i + 1) (i + 2) (i + 3))

pub pack_uint_to6_bytes : ℕ → List ℕ → ℕ → Outcome BytesError (List ℕ)
pack_uint_to6_bytes u b i =
    if ltb 0xffffffffffff u
    then throws value_too_big
    else if ltb (length b) (i + 6)
    then throws array_too_short
    else (let h = u / 0x100000000 in
        let l = u % 0x100000000 in
        let b1 = put_byte b i (ushr h 8) in
        let b2 = put_byte b1 (i + 1) h in
        let b3 = put_byte b2 (i + 2) (ushr l 24) in
        let b4 = put_byte b3 (i + 3) (ushr l 16) in
        let b5 = put_byte b4 (i + 4) (ushr l 8) in ok (put_byte b5 (i + 5) l))

pub uint_from6_bytes : List ℕ → ℕ → Outcome BytesError ℕ
uint_from6_bytes x i =
    if ltb (length x) (i + 6)
    then throws array_too_short
    else (let h = bit_or (shl (byte_at x i) 8) (byte_at x (i + 1)) in
        let l = byte_at x (i + 2) * 0x1000000 + or_three x (i + 3) (i + 4) (i + 5) in
        ok (h * 0x100000000 + l))

pub pack_uint_to8_bytes : ℕ → List ℕ → ℕ → Outcome BytesError (List ℕ)
pack_uint_to8_bytes u b i =
    if ltb max_safe_integer u
    then throws value_too_big
    else if ltb (length b) (i + 8)
    then throws array_too_short
    else (let h = u / 0x100000000 in
        let l = u % 0x100000000 in
        let b1 = put_byte b i (ushr h 24) in
        let b2 = put_byte b1 (i + 1) (ushr h 16) in
        let b3 = put_byte b2 (i + 2) (ushr h 8) in
        let b4 = put_byte b3 (i + 3) h in
        let b5 = put_byte b4 (i + 4) (ushr l 24) in
        let b6 = put_byte b5 (i + 5) (ushr l 16) in
        let b7 = put_byte b6 (i + 6) (ushr l 8) in ok (put_byte b7 (i + 7) l))

unfoldable pub uint_from8_bytes : List ℕ → ℕ → Outcome BytesError ℕ
uint_from8_bytes x i =
    if ltb (length x) (i + 8)
    then throws array_too_short
    else (let h = byte_at x i * 0x1000000 + or_three x (i + 1) (i + 2) (i + 3) in
        let l = byte_at x (i + 4) * 0x1000000 + or_three x (i + 5) (i + 6) (i + 7) in
        ok (h * 0x100000000 + l))
