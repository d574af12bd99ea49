-- ===== src/StatusInfo/Branches.antt =====
-- `versionsToBranch`, `removeArchVersionsNotInList` and `addArchVersionsFromList` of
-- ts-code/core/storage/synced/obj-status.ts.
use core_3nweb_client_lib.Base.{
  ℕ, suc, ◌≤◌, ◌≡◌, refl, ap, arith, true, false, Option, none, some, List, [], ◌∷◌, ◌++◌, ge→ltb,
  lt→ltb, take-append-drop, append-nil,
}
use core_3nweb_client_lib.StatusInfo.{find_index_above, split_archived}

abbrev pub listed : Option (List ℕ) → List ℕ
listed none = []
listed (some vs) = vs

-- Archived versions, the first of which is not above the split, are parted into those of the branch
-- below it and those of the branch above it.
pub split_archived_parts :
    (v : ℕ) (vs : List ℕ) (split : ℕ)
    → v ≤ split
    → listed (split_archived (v ∷ vs) split false) ++ listed (split_archived (v ∷ vs) split true)
      ≡ v ∷ vs
unfolding split_archived find_index_above
split_archived_parts v vs split h = by_index (find_index_above split vs) refl
  where
    by_index :
        (i : Option ℕ)
        → find_index_above split vs ≡ i
        → listed (split_archived (v ∷ vs) split false)
            ++ listed (split_archived (v ∷ vs) split true)
          ≡ v ∷ vs
    by_index none e =
        rw (split_archived, find_index_above, ge→ltb split v h) (rw e (ap (◌∷◌ v) (append-nil vs)))
    by_index (some i) e =
        rw (split_archived, find_index_above, ge→ltb split v h)
          (rw e (rw (lt→ltb 0 (suc i) (omega arith)) (take-append-drop (suc i) (v ∷ vs))))
