-- ===== src/BigEndian/Runs.antt =====
-- Runs of the functions of big-endian.ts, and their theorems at concrete inputs.
use core_3nweb_client_lib.Base.{List, ℕ, [], ◌∷◌, ok, throws, ◌≡◌, refl}
use core_3nweb_client_lib.BigEndian.{
  value_too_big, array_too_short, pack_uint_to2_bytes, pack_uint_to4_bytes, uint_from8_bytes,
}

abbrev ten : List ℕ
ten = 9 ∷ 9 ∷ 9 ∷ 9 ∷ 9 ∷ 9 ∷ 9 ∷ 9 ∷ 9 ∷ 9 ∷ []

pack4_run :
    pack_uint_to4_bytes 0x0a0b0c0d ten 1
    ≡ ok (9 ∷ 0x0a ∷ 0x0b ∷ 0x0c ∷ 0x0d ∷ 9 ∷ 9 ∷ 9 ∷ 9 ∷ 9 ∷ [])
unfolding pack_uint_to4_bytes
pack4_run = refl

pack2_too_big : pack_uint_to2_bytes 0x10000 ten 0 ≡ throws value_too_big
unfolding pack_uint_to2_bytes
pack2_too_big = refl

from8_too_short : uint_from8_bytes ten 3 ≡ throws array_too_short
unfolding uint_from8_bytes
from8_too_short = refl
