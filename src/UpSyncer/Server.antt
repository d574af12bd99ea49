-- ===== src/UpSyncer/Server.antt =====
-- What a server holds of the requests that it saved: a specification of an ordered upload, in which
-- segments are only ever appended, for the requests of ts-code/core/storage/synced/upsyncer.ts.
use core_3nweb_client_lib.Base.{
  ℕ, zero, suc, ◌+◌, ◌≤◌, ◌≡◌, refl, ap, arith, Bool, Option, none, some, List, [], ◌∷◌, ◌++◌, ◌==◌,
  if◌then◌else◌, length, take, drop, length-take, length-drop,
}
use core_3nweb_client_lib.UpSyncer.{
  Source, Request, first, follow, Reply, saved, disconnected, refused,
}

pub record Held : Type 0 where
  pub ver : ℕ
  pub header : List ℕ
  pub diff : Option (List ℕ)
  pub segs : List ℕ
  pub is_whole : Bool

pub data Stored : Type 0 where
  nothing : Stored
  held : Held → Stored

abbrev pub bytes_or_none : Option (List ℕ) → List ℕ
bytes_or_none none = []
bytes_or_none (some bytes) = bytes

-- `none` when the server can't accept the request: a second start, segments that do not follow on
-- those that it has, and anything after the last request.
unfoldable pub accept : Request → Stored → Option Stored
accept (first ver last header diff segs) nothing = some (
    held (record {
      ver = ver;
      header = header;
      diff = diff;
      segs = bytes_or_none segs;
      is_whole = last;
    }))
accept (first ver last header diff segs) (held h) = none
accept (follow trans ofs last segs) nothing = none
accept (follow trans ofs last segs) (held h) =
    if h.is_whole
    then none
    else if ofs == length h.segs
    then some (held (record h { segs = h.segs ++ segs; is_whole = last }))
    else none

abbrev and_then : Option Stored → (Stored → Option Stored) → Option Stored
and_then none next = none
and_then (some s) next = next s

-- A request that was not answered has not reached the server, and a refused one changes nothing.
unfoldable pub answered : Request → Reply → Option Stored → Option Stored
unfolding accept
answered request (saved trans) s = and_then s (accept request)
answered request disconnected s = s
answered request (refused b) s = s

-- What the server holds after all requests, of which the last one stands first.
unfoldable pub stored : List (Request × Reply) → Option Stored
unfolding answered
stored [] = some nothing
stored ((request, reply) ∷ older) = answered request reply (stored older)

-- The object's segments are read as they are.
unfoldable pub IsSource : List ℕ → Source → Type 0
IsSource bytes src =
    (src.segs_size ≡ length bytes)
    × ((ofs len : ℕ)
        → ofs + len ≤ length bytes
        → src.read_at ofs len ≡ some (take len (drop ofs bytes)))

module _ {ℓ} {A : Type ℓ} where
  take_add_to : (k m n : ℕ) (xs : List A) → k ≡ m + n → take k xs ≡ take m xs ++ take n (drop m xs)
  take_add_to k zero n xs e = ap (λ (t : ℕ). take t xs) (omega arith)
  take_add_to zero (suc m) n xs e = absurd (omega arith)
  take_add_to (suc k) (suc m) zero [] e = refl
  take_add_to (suc k) (suc m) (suc n) [] e = refl
  take_add_to (suc k) (suc m) n (x ∷ xs) e = ap (◌∷◌ x) (take_add_to k m n xs (omega arith))

  pub take_add : (m n : ℕ) (xs : List A) → take (m + n) xs ≡ take m xs ++ take n (drop m xs)
  take_add m n xs = take_add_to (m + n) m n xs refl

  pub length-take_within :
      (ofs len : ℕ) (xs : List A) → ofs + len ≤ length xs → length (take len (drop ofs xs)) ≡ len
  length-take_within ofs len xs h = omega (arith, length-take len (drop ofs xs), length-drop ofs xs)

  pub length-take_from_start : (n : ℕ) (xs : List A) → n ≤ length xs → length (take n xs) ≡ n
  length-take_from_start n xs h = omega (arith, length-take n xs)
