-- ===== src/JsonSaving/Freshness.antt =====
-- Which value the file holds by ts-code/core/storage/common/json-saving.ts.
use core_3nweb_client_lib.Base.{
  ℕ, ◌≤◌, ◌<◌, ◌≡◌, refl, arith, Bool, true, false, Option, none, some,
}
use core_3nweb_client_lib.JsonSaving.{
  World, save, trigger, trigger_with, after_write, end_write, write_ends, change, Step, changes,
  triggers, ends, Reachable, from_start, next,
}

-- The file's value is not older than the value at the last trigger.
pub FileIsFresh : World → Type 0
FileIsFresh w = (v : ℕ) × (w.file ≡ some v) × (w.asked ≤ v)

-- What holds for a process by whether it runs, and needs saving, and whether the last write failed.
Fresh : Option ℕ → Bool → Bool → ℕ → Option ℕ → Type 0
Fresh (some writing) true failed asked file = Unit
Fresh (some writing) false failed asked file = asked ≤ writing
Fresh none true failed asked file = ⊥
Fresh none false true asked file = Unit
Fresh none false false asked none = asked ≡ 0
Fresh none false false asked (some v) = asked ≤ v

pub IsUpToDate : World → Type 0
unfolding Fresh
IsUpToDate w =
    (w.asked ≤ w.now) × Fresh w.saving.proc w.saving.json_needs_saving w.failed w.asked w.file

abbrev world : Option ℕ → Bool → ℕ → Option ℕ → Bool → ℕ → World
world p n now file failed asked = record {
  saving = record { proc = p; json_needs_saving = n };
  now = now;
  file = file;
  failed = failed;
  asked = asked;
}

change-Fresh :
    (p : Option ℕ) (n : Bool) (now : ℕ) (file : Option ℕ) (failed : Bool) (asked : ℕ)
    → IsUpToDate (world p n now file failed asked)
    → IsUpToDate (change (world p n now file failed asked))
unfolding IsUpToDate
change-Fresh p n now file failed asked (h, fresh) = (omega arith, fresh)

trigger-Fresh :
    (p : Option ℕ) (n : Bool) (now : ℕ) (file : Option ℕ) (failed : Bool) (asked : ℕ)
    → IsUpToDate (world p n now file failed asked)
    → IsUpToDate (trigger (world p n now file failed asked))
unfolding IsUpToDate trigger trigger_with save
trigger-Fresh (some x) true now file failed asked (h, fresh) = (omega arith, tt)
trigger-Fresh (some x) false now file failed asked (h, fresh) = (omega arith, tt)
trigger-Fresh none true now file failed asked (h, fresh) = absurd fresh
trigger-Fresh none false now file failed asked (h, fresh) = (omega arith, omega arith)

write_ends-Fresh :
    (success : Bool) (p : Option ℕ) (n : Bool) (now : ℕ) (file : Option ℕ) (failed : Bool)
    (asked : ℕ)
    → IsUpToDate (world p n now file failed asked)
    → IsUpToDate (write_ends success (world p n now file failed asked))
unfolding IsUpToDate write_ends end_write after_write save
write_ends-Fresh success none n now file failed asked (h, fresh) = (h, fresh)
write_ends-Fresh true (some x) true now file failed asked (h, fresh) = (h, h)
write_ends-Fresh true (some x) false now file failed asked (h, fresh) = (h, fresh)
write_ends-Fresh false (some x) true now file failed asked (h, fresh) = (h, h)
write_ends-Fresh false (some x) false now file failed asked (h, fresh) = (h, tt)

-- A change of the value, a trigger and the end of a write, well or not, keep the invariant.
pub Step-IsUpToDate : {w w' : World} → Step w w' → IsUpToDate w → IsUpToDate w'
Step-IsUpToDate (changes w) h =
    change-Fresh w.saving.proc w.saving.json_needs_saving w.now w.file w.failed w.asked h
Step-IsUpToDate (triggers w) h =
    trigger-Fresh w.saving.proc w.saving.json_needs_saving w.now w.file w.failed w.asked h
Step-IsUpToDate (ends success w) h =
    write_ends-Fresh success w.saving.proc w.saving.json_needs_saving w.now w.file w.failed w.asked
      h

pub Reachable-IsUpToDate : {w : World} → Reachable w → IsUpToDate w
unfolding IsUpToDate
Reachable-IsUpToDate from_start = (omega arith, refl)
Reachable-IsUpToDate (next r s) = Step-IsUpToDate s (Reachable-IsUpToDate r)

idle-FileIsFresh :
    (p : Option ℕ) (n : Bool) (now : ℕ) (file : Option ℕ) (failed : Bool) (asked : ℕ)
    → IsUpToDate (world p n now file failed asked)
    → p ≡ none
    → failed ≡ false
    → 0 < asked
    → FileIsFresh (world p n now file failed asked)
unfolding IsUpToDate FileIsFresh
idle-FileIsFresh (some x) n now file failed asked h e e' a = cc e
idle-FileIsFresh none true now file failed asked (h, fresh) e e' a = absurd fresh
idle-FileIsFresh none false now file true asked h e e' a = cc e'
idle-FileIsFresh none false now none false asked (h, fresh) e e' a = absurd (omega arith)
idle-FileIsFresh none false now (some v) false asked (h, fresh) e e' a = (v, refl, fresh)

-- However changes, triggers and ends of writes follow each other: when no save runs, and the last
-- write has not failed, the file holds a value that is not older than the one at the last trigger.
-- Values with a stamp of 0 are left out.
pub Reachable-FileIsFresh :
    (w : World)
    → Reachable w
    → w.saving.proc ≡ none
    → w.failed ≡ false
    → 0 < w.asked
    → FileIsFresh w
Reachable-FileIsFresh w r =
    idle-FileIsFresh w.saving.proc w.saving.json_needs_saving w.now w.file w.failed w.asked
      (Reachable-IsUpToDate r)

two_ends :
    (p : Option ℕ) (n : Bool) (now : ℕ) (file : Option ℕ) (failed : Bool) (asked x : ℕ)
    → IsUpToDate (world p n now file failed asked)
    → p ≡ some x
    → ((write_ends true (write_ends true (world p n now file failed asked))).saving.proc ≡ none)
      × FileIsFresh (write_ends true (write_ends true (world p n now file failed asked)))
unfolding IsUpToDate FileIsFresh write_ends end_write after_write save
two_ends none n now file failed asked x h e = cc e
two_ends (some y) true now file failed asked x (h, fresh) e = (refl, (now, refl, h))
two_ends (some y) false now file failed asked x (h, fresh) e = (refl, (y, refl, fresh))

-- From every reachable state in which a save runs, two writes that end well, with no trigger in
-- between, are enough: then no save runs, and the file is as new as the last trigger.
pub write_ends_twice-FileIsFresh :
    (w : World) (x : ℕ)
    → Reachable w
    → w.saving.proc ≡ some x
    → ((write_ends true (write_ends true w)).saving.proc ≡ none)
      × FileIsFresh (write_ends true (write_ends true w))
write_ends_twice-FileIsFresh w x r e =
    two_ends w.saving.proc w.saving.json_needs_saving w.now w.file w.failed w.asked x
      (Reachable-IsUpToDate r) e
