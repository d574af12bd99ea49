-- ===== src/BytesFifo.antt =====
-- ts-code/lib-common/byte-streaming/bytes-fifo-buffer.ts: a first in, first out queue of byte
-- arrays, from which any number of bytes is taken.
pub mod Order
mod Runs
use core_3nweb_client_lib.Base.{
  ℕ, zero, suc, ◌+◌, ◌-◌, ◌≡◌, List, [], ◌∷◌, ◌++◌, length, take, drop, leb, ltb, ◌==◌, Bool, true,
  false, if◌then◌else◌, Option, none, some, Outcome, ok, throws, ◌>>=◌,
}

pub record BytesFifo : Type 0 where
  pub queue : List (List ℕ)
  pub bytes_len : ℕ

-- `read_of_undefined` is the exception that reading `length` of a missing chunk throws.
pub data FifoError : Type 0 where
  illegal_length read_of_undefined : FifoError

pub empty : BytesFifo
empty = record { queue = []; bytes_len = 0 }

unfoldable pub clear : BytesFifo → BytesFifo
clear b = record { queue = []; bytes_len = 0 }

pub push : BytesFifo → List ℕ → BytesFifo
push b bytes =
    if length bytes == 0
    then b
    else record { queue = b.queue ++ (bytes ∷ []); bytes_len = b.bytes_len + length bytes }

-- The loop of `extractSomeBytesFrom` with `left` bytes to go: the bytes set so far are what the
-- calls have returned, and each round shifts a chunk off the queue or cuts the first one.
pub extract_loop : List (List ℕ) → ℕ → Outcome FifoError (List ℕ × List (List ℕ))
extract_loop queue zero = ok ([], queue)
extract_loop [] (suc left) = throws read_of_undefined
extract_loop (chunk ∷ queue) (suc left) =
    let rest = (do
      (bytes, queue') ← extract_loop queue (suc left - length chunk)
      ok (chunk ++ bytes, queue')) in
    if leb (length chunk) (suc left)
    then rest
    else ok (take (suc left) chunk, drop (suc left) chunk ∷ queue)

pub extract_some_bytes_from : BytesFifo → ℕ → Outcome FifoError (BytesFifo × Option (List ℕ))
extract_some_bytes_from b extract_len = elim b.queue [
  | [] ↦ ok (b, none)
  | c ∷ cs ↦ do
    (bytes, queue) ← extract_loop b.queue extract_len
    ok (record b { queue = queue }, some bytes)
]

pub extract_all_bytes_from : BytesFifo → Outcome FifoError (BytesFifo × Option (List ℕ))
extract_all_bytes_from b = extract_some_bytes_from b b.bytes_len

-- The end of `getBytes`: the count falls by what was extracted.
pub count_extract : BytesFifo × Option (List ℕ) → BytesFifo × Option (List ℕ)
count_extract (b, none) = (b, none)
count_extract (b, some bytes) = (record b { bytes_len = b.bytes_len - length bytes }, some bytes)

abbrev counted :
    Outcome FifoError (BytesFifo × Option (List ℕ))
    → Outcome FifoError (BytesFifo × Option (List ℕ))
counted m = m >>= λ r. ok (count_extract r)

abbrev is_empty : BytesFifo → Bool
is_empty b = elim b.queue [ [] ↦ true | c ∷ cs ↦ false ]

-- `getBytes(len, canBeLess)`
pub get_bytes : BytesFifo → Option ℕ → Bool → Outcome FifoError (BytesFifo × Option (List ℕ))
get_bytes b none can_be_less = counted (extract_all_bytes_from b)
get_bytes b (some len) can_be_less =
    if ltb len 1
    then throws illegal_length
    else if is_empty b
    then ok (b, none)
    else if ltb b.bytes_len len
    then (if can_be_less then counted (extract_all_bytes_from b) else ok (b, none))
    else counted (extract_some_bytes_from b len)
