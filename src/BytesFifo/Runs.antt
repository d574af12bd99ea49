-- ===== src/BytesFifo/Runs.antt =====
-- A run of bytes-fifo-buffer.ts, and its theorems at concrete inputs.
use core_3nweb_client_lib.Base.{◌≡◌, refl, arith, [], ◌∷◌, some, true, false, ok, throws}
use core_3nweb_client_lib.BytesFifo.{
  BytesFifo, illegal_length, empty, push, get_bytes, extract_some_bytes_from, extract_loop,
  count_extract,
}
use core_3nweb_client_lib.BytesFifo.Order.{IsValid, Refines, take_bytes, get_bytes-Refines}

abbrev two_chunks : BytesFifo
two_chunks = record { queue = (1 ∷ 2 ∷ 3 ∷ []) ∷ (4 ∷ 5 ∷ []) ∷ []; bytes_len = 5 }

abbrev one_left : BytesFifo
one_left = record { queue = (5 ∷ []) ∷ []; bytes_len = 1 }

filled : push (push empty (1 ∷ 2 ∷ 3 ∷ [])) (4 ∷ 5 ∷ []) ≡ two_chunks
unfolding push empty
filled = refl

four_taken : get_bytes two_chunks (some 4) false ≡ ok (one_left, some (1 ∷ 2 ∷ 3 ∷ 4 ∷ []))
unfolding get_bytes extract_some_bytes_from extract_loop count_extract
four_taken = refl

none_taken : get_bytes two_chunks (some 0) true ≡ throws illegal_length
unfolding get_bytes
none_taken = refl

two_chunks-IsValid : IsValid two_chunks
two_chunks-IsValid = record { chunks = omega arith; counts = refl }

get_bytes-Refines_example :
    Refines
      (get_bytes two_chunks (some 4) false)
      (take_bytes (1 ∷ 2 ∷ 3 ∷ 4 ∷ 5 ∷ []) (some 4) false)
get_bytes-Refines_example = get_bytes-Refines two_chunks (some 4) false two_chunks-IsValid
