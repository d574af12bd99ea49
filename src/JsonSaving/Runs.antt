-- ===== src/JsonSaving/Runs.antt =====
-- A run of ts-code/core/storage/common/json-saving.ts, and its theorems along it.
use core_3nweb_client_lib.Base.{◌≡◌, refl, arith, true, none, some}
use core_3nweb_client_lib.JsonSaving.{
  World, start, save, trigger, write_ends, change, changes, triggers, ends, Reachable, from_start,
  next,
}
use core_3nweb_client_lib.JsonSaving.Freshness.{
  FileIsFresh, Reachable-FileIsFresh, write_ends_twice-FileIsFresh,
}

-- The value changes, is saved, and changes and is asked for again while it is written.
abbrev busy : World
busy = trigger (change (trigger (change start)))

busy-Reachable : Reachable busy
busy-Reachable =
    next (next (next (next from_start (changes _)) (triggers _)) (changes _)) (triggers _)

abbrev settled : World
settled = write_ends true (write_ends true busy)

settled-Reachable : Reachable settled
settled-Reachable = next (next busy-Reachable (ends true _)) (ends true _)

-- The file holds the second value.
settled_file : settled.file ≡ some 2
unfolding write_ends trigger save
settled_file = refl

settled_idle : settled.saving.proc ≡ none
unfolding write_ends trigger save
settled_idle = refl

Reachable-FileIsFresh_example : FileIsFresh settled
unfolding write_ends trigger save
Reachable-FileIsFresh_example =
    Reachable-FileIsFresh settled settled-Reachable settled_idle refl (omega arith)

busy_writes : busy.saving.proc ≡ some 1
unfolding trigger save
busy_writes = refl

write_ends_twice-FileIsFresh_example : (settled.saving.proc ≡ none) × FileIsFresh settled
write_ends_twice-FileIsFresh_example =
    write_ends_twice-FileIsFresh busy 1 busy-Reachable busy_writes
