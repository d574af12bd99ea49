-- ===== src/JsonSaving.antt =====
-- ts-code/core/storage/common/json-saving.ts: saving of a value that changes while it is written.
-- Values are stamped with numbers, each change having the next one; `writeFile` and `unlink` end
-- well or fail at any time after they were called. Taking of a value and its `JSON.stringify` are
-- taken not to fail. Removal of the file, when there is no value, is a write as well.
pub mod Freshness
mod Runs
use core_3nweb_client_lib.Base.{
  if◌then◌else◌, ℕ, zero, suc, ◌≡◌, Bool, true, false, not, Option, none, some,
}

-- `proc` is here by the value that the running `save` has taken to write.
pub record JsonSavingProc : Type 0 where
  pub proc : Option ℕ
  pub json_needs_saving : Bool

-- The process with what is around it: the stamp of the value that `getForSerialization` gives now,
-- the stamp of the value in the file, whether the last write has failed, and the stamp of the value
-- at the last trigger.
pub record World : Type 0 where
  pub saving : JsonSavingProc
  pub now : ℕ
  pub file : Option ℕ
  pub failed : Bool
  pub asked : ℕ

abbrev pub start : World
start = record {
  saving = record { proc = none; json_needs_saving = false };
  now = 0;
  file = none;
  failed = false;
  asked = 0;
}

-- `save` up to its first `await`.
unfoldable pub save : World → World
save w = record w { saving = record { proc = some w.now; json_needs_saving = false } }

trigger_with : Option ℕ → World → World
unfolding save
trigger_with none w = save w
trigger_with (some writing) w = record w {
  saving = record { proc = some writing; json_needs_saving = true };
}

pub trigger : World → World
unfolding trigger_with
trigger w =
    let asking = record w { asked = w.now } in
    if w.saving.json_needs_saving then asking else trigger_with w.saving.proc asking

unfoldable pub is_saved : JsonSavingProc → Bool
is_saved p = not p.json_needs_saving

-- The `finally` block, when the write has ended.
after_write : World → World
unfolding save
after_write w =
    if w.saving.json_needs_saving
    then save w
    else record w { saving = record { proc = none; json_needs_saving = false } }

end_write : Option ℕ → Bool → World → World
unfolding after_write
end_write none success w = w
end_write (some writing) true w = after_write (record w { file = some writing; failed = false })
end_write (some writing) false w = after_write (record w { failed = true })

-- The running write ends, well or not.
pub write_ends : Bool → World → World
unfolding end_write
write_ends success w = end_write w.saving.proc success w

-- The value changes.
abbrev pub change : World → World
change w = record w { now = suc w.now }

pub data Step : World → World → Type 0 where
  changes : (w : World) → Step w (change w)
  triggers : (w : World) → Step w (trigger w)
  ends : (success : Bool) (w : World) → Step w (write_ends success w)

pub data Reachable : World → Type 0 where
  from_start : Reachable start
  next : {w w' : World} → Reachable w → Step w w' → Reachable w'
