-- ===== src/Versions/Runs.antt =====
-- Runs of obj-info-file.ts, and its theorems at concrete inputs.
use core_3nweb_client_lib.Base.{ℕ, ◌≡◌, ◌↔◌, refl, [], ◌∷◌, none, some, true, includes}
use core_3nweb_client_lib.Base.NumMap.{get, put, remove, size}
use core_3nweb_client_lib.Versions.{
  VersionsInfo, rm_non_arch_versions_in, add_archived, non_garbage_versions_in,
  set_current_version_in, rm_current_version_in,
}
use core_3nweb_client_lib.Versions.Links.{IsLinked, Reach}
use core_3nweb_client_lib.Versions.States.{Step, Reachable, sets, fresh, after, Reachable-IsLinked}
use core_3nweb_client_lib.Versions.Garbage.{IsRoot, non_garbage_versions_in-Reach}

abbrev blank : VersionsInfo
blank = record { current = none; archived = none; base_to_diff = []; diff_to_base = [] }

abbrev one : VersionsInfo
one = record blank { current = some 1 }

-- Version 2 is stored as a difference on version 1.
abbrev two : VersionsInfo
two = record {
  current = some 2;
  archived = none;
  base_to_diff = (1, 2) ∷ [];
  diff_to_base = (2, 1) ∷ [];
}

-- The same with version 2 archived.
abbrev two_archived : VersionsInfo
two_archived = record two { archived = some (2 ∷ []) }

-- Archived versions are sorted as texts.
ten_before_nine :
    (add_archived (record one { archived = some (9 ∷ []) }) 10).0.archived ≡ some (10 ∷ 9 ∷ [])
unfolding add_archived
ten_before_nine = refl

two_spared : non_garbage_versions_in two ≡ 1 ∷ 2 ∷ []
unfolding non_garbage_versions_in get
two_spared = refl

removed : (rm_current_version_in two).0 ≡ blank
unfolding rm_current_version_in rm_non_arch_versions_in get remove size
removed = refl

two-Reachable : Reachable two
unfolding set_current_version_in rm_non_arch_versions_in get put remove size
two-Reachable = after (after fresh (sets 1 none tt refl)) (sets 2 (some 1) (refl, refl) refl)

two_archived-IsLinked : IsLinked two_archived
two_archived-IsLinked = record { down = h.down; back = h.back; forth = h.forth }
  where
    h : IsLinked two
    h = Reachable-IsLinked two-Reachable

two-Step : Step one two
unfolding set_current_version_in rm_non_arch_versions_in get put remove size
two-Step = sets 2 (some 1) (refl, refl) refl

one-IsLinked : IsLinked one
unfolding get
one-IsLinked = record { down = λ d b p. cc p; back = λ d b p. cc p; forth = λ b d p. cc p }

Reachable-IsLinked_example : IsLinked two
Reachable-IsLinked_example = Reachable-IsLinked two-Reachable

non_garbage_versions_in-Reach_example :
    (includes (non_garbage_versions_in two_archived) 1 ≡ true)
    ↔ ((r : ℕ) × IsRoot two_archived r × Reach two_archived.diff_to_base r 1)
non_garbage_versions_in-Reach_example =
    non_garbage_versions_in-Reach two_archived 1 two_archived-IsLinked
