-- ===== src/Base/NumMap.antt =====
-- A JavaScript object with numbers for keys and for values, `{ [key: number]: number }`, as an
-- association list. The code never goes through the keys, so their order is not modelled.
use Prim.Native.Nat.{ℕ, ◌≤◌, ◌<◌, suc}
use mathlib.Core.Path.{◌≡◌, refl}
use mathlib.Core.List.{List, [], ◌∷◌}
use mathlib.Core.Option.{Option, none, some}
use native.Mathlib.Omega.{arith}
use core_3nweb_client_lib.Base.Tests.{◌==◌, if◌then◌else◌}

abbrev pub NumMap : Type 0
NumMap = List (ℕ × ℕ)

-- `map[key]`
unfoldable pub get : NumMap → ℕ → Option ℕ
get [] key = none
get ((k, v) ∷ m) key = if k == key then some v else get m key

-- `delete map[key]`
unfoldable pub remove : NumMap → ℕ → NumMap
remove [] key = []
remove ((k, v) ∷ m) key = let rest = remove m key in if k == key then rest else (k, v) ∷ rest

-- `map[key] = value`
unfoldable pub put : NumMap → ℕ → ℕ → NumMap
unfolding remove
put m key value = (key, value) ∷ remove m key

unfoldable pub size : NumMap → ℕ
size [] = 0
size (e ∷ m) = suc (size m)

pub get-remove : (m : NumMap) (k j : ℕ) → get (remove m k) j ≡ (if k == j then none else get m j)
unfolding get remove
get-remove [] k j = ground arith
get-remove ((i, v) ∷ m) k j = ground (arith, get-remove m k j)

pub get-put : (m : NumMap) (k v j : ℕ) → get (put m k v) j ≡ (if k == j then some v else get m j)
unfolding get put
get-put m k v j = ground (arith, get-remove m k j)

pub size-remove-le : (m : NumMap) (k : ℕ) → size (remove m k) ≤ size m
unfolding size remove
size-remove-le [] k = omega arith
size-remove-le ((i, v) ∷ m) k = ground (arith, size-remove-le m k)

pub size-remove-lt : (m : NumMap) (k v : ℕ) → get m k ≡ some v → size (remove m k) < size m
unfolding size remove get
size-remove-lt [] k v h = cc
size-remove-lt ((i, w) ∷ m) k v h = ground (arith, size-remove-lt m k v, size-remove-le m k)

pub get-empty : (k : ℕ) → get [] k ≡ none
unfolding get
get-empty k = refl
