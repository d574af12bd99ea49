-- ===== src/ObjGc/Requests.antt =====
-- Requests for collection against the collections that begin, of
-- ts-code/core/storage/synced/obj-files-gc.ts.
use core_3nweb_client_lib.Base.{
  ℕ, ◌≡◌, ◌⊎◌, inl, inr, refl, sym, ap, ◌∙◌, Bool, true, false, List, [], ◌∷◌, ◌++◌, includes,
  ==_iff, if_cases, Bool-cases, not, ◌&&◌, ◌==◌, ◌||◌,
}
use core_3nweb_client_lib.ObjGc.Objects.{
  Gc, Phase, idle, returning, collecting, obj_collecting, schedule_collection, stop_gc, add_to_set,
  start_if_idle,
}
use core_3nweb_client_lib.ObjGc.Turns.{waiting, objs_in, obj_collecting-waiting}

-- A request for an object's collection, while the collector is not stopped, and a beginning of one.
pub data GcEvent : Type 0 where
  asked began : ℕ → GcEvent

-- With the latest event first: there is a request for the object with no beginning after it.
abbrev pub owed : List GcEvent → ℕ → Bool
owed [] x = false
owed (asked obj ∷ older) x = (obj == x) || owed older x
owed (began obj ∷ older) x = not (obj == x) && owed older x

-- There is a request for the object.
abbrev pub was_asked : List GcEvent → ℕ → Bool
was_asked [] x = false
was_asked (asked obj ∷ older) x = (obj == x) || was_asked older x
was_asked (began obj ∷ older) x = was_asked older x

-- The beginning of what the action goes on to do.
abbrev pub begins : Phase → List GcEvent → List GcEvent
begins idle older = older
begins returning older = older
begins (collecting obj) older = began obj ∷ older

-- A request begins a collection only where nothing runs.
abbrev pub after_request : Phase → Phase → List GcEvent → List GcEvent
after_request idle after older = begins after older
after_request returning after older = older
after_request (collecting obj) after older = older

-- The collector after some events.
pub data GcReach : List GcEvent → Gc → Type 0 where
  made : GcReach [] (record { is_stopped = false; phase = idle; wip = []; scheduled = [] })
  asks :
      {past : List GcEvent} {gc : Gc}
      → GcReach past gc
      → (obj : ℕ) → gc.is_stopped ≡ false
      → GcReach
          (after_request gc.phase (schedule_collection gc obj).phase (asked obj ∷ past))
          (schedule_collection gc obj)
  ignores :
      {past : List GcEvent} {gc : Gc}
      → GcReach past gc
      → (obj : ℕ) → gc.is_stopped ≡ true
      → GcReach past (schedule_collection gc obj)
  stops : {past : List GcEvent} {gc : Gc} → GcReach past gc → GcReach past (stop_gc gc)
  collects :
      {past : List GcEvent} {gc : Gc}
      → GcReach past gc
      → (obj : ℕ) → gc.phase ≡ collecting obj
      → GcReach (begins (obj_collecting gc).phase past) (obj_collecting gc)
  returns_idle :
      {past : List GcEvent} {gc : Gc}
      → GcReach past gc
      → gc.phase ≡ returning
      → GcReach past (record gc { phase = idle })

includes-append :
    (xs ys : List ℕ) (x : ℕ) → includes (xs ++ ys) x ≡ (includes xs x || includes ys x)
includes-append [] ys x = refl
includes-append (y ∷ xs) ys x =
    ap (λ (b : Bool). (y == x) || b) (includes-append xs ys x) ∙ or_assoc (y == x) _ _
  where
    or_assoc : (a b c : Bool) → (a || (b || c)) ≡ ((a || b) || c)
    or_assoc true b c = refl
    or_assoc false b c = refl

includes-add_to_set :
    (set : List ℕ) (obj x : ℕ) → includes (add_to_set set obj) x ≡ ((obj == x) || includes set x)
includes-add_to_set set obj x =
    if_cases (λ (t : List ℕ). includes t x ≡ ((obj == x) || includes set x)) (includes set obj)
      (λ e. already (Bool-cases (obj == x)) e)
      (λ _. includes-append set (obj ∷ []) x ∙ at_end (includes set x) (obj == x))
  where
    at_end : (a b : Bool) → (a || (b || false)) ≡ (b || a)
    at_end true true = refl
    at_end true false = refl
    at_end false true = refl
    at_end false false = refl

    already :
        ((obj == x) ≡ true) ⊎ ((obj == x) ≡ false)
        → includes set obj ≡ true
        → includes set x ≡ ((obj == x) || includes set x)
    already (inl same) e = rw same (ap (includes set) (sym ((==_iff obj x).0 same)) ∙ e)
    already (inr other) e = rw other refl

or_first : (a b c : Bool) → (a || (b || c)) ≡ (b || (a || c))
or_first true true c = refl
or_first true false c = refl
or_first false b c = refl

-- Every request that no beginning has followed is waiting, and what waits or is being collected was
-- asked for.
abbrev Accounts : List GcEvent → Phase → List ℕ → Type 0
Accounts past phase rest =
    ((x : ℕ) → owed past x ≡ true → includes rest x ≡ true)
    × ((x : ℕ) → includes (objs_in phase ++ rest) x ≡ true → was_asked past x ≡ true)

in_second : (xs ys : List ℕ) (x : ℕ) → includes ys x ≡ true → includes (xs ++ ys) x ≡ true
in_second xs ys x h = includes-append xs ys x ∙ or_second (includes xs x) _ h
  where
    or_second : (a b : Bool) → b ≡ true → (a || b) ≡ true
    or_second true b h' = refl
    or_second false b h' = h'

drop_first : (a b r : Bool) → (not a && b) ≡ true → (b ≡ true → (a || r) ≡ true) → r ≡ true
drop_first true b r h k = cc h
drop_first false b r h k = k h

or_mono : (a b c : Bool) → (b ≡ true → c ≡ true) → (a || b) ≡ true → (a || c) ≡ true
or_mono true b c f h = refl
or_mono false b c f h = f h

-- The object that is taken next begins to be collected, and the others wait on.
begins-Accounts :
    (phase : Phase) (past : List GcEvent) (rest : List ℕ)
    → ((x : ℕ) → owed past x ≡ true → includes (objs_in phase ++ rest) x ≡ true)
    → ((x : ℕ) → includes (objs_in phase ++ rest) x ≡ true → was_asked past x ≡ true)
    → Accounts (begins phase past) phase rest
begins-Accounts idle past rest waits fair = (waits, fair)
begins-Accounts returning past rest waits fair = (waits, fair)
begins-Accounts (collecting obj) past rest waits fair =
    (λ x h. drop_first (obj == x) (owed past x) (includes rest x) h (waits x), fair)

collecting-Accounts :
    (past : List GcEvent) (gc : Gc)
    → ((x : ℕ) → owed past x ≡ true → includes (waiting gc) x ≡ true)
    → ((x : ℕ) → includes (waiting gc) x ≡ true → was_asked past x ≡ true)
    → Accounts
        (begins (obj_collecting gc).phase past)
        (obj_collecting gc).phase
        (waiting (obj_collecting gc))
collecting-Accounts past gc waits fair =
    begins-Accounts (obj_collecting gc).phase past (waiting (obj_collecting gc))
      (λ x h. same x ∙ waits x h) (λ x h. fair x (sym (same x) ∙ h))
  where
    same :
        (x : ℕ)
        → includes (objs_in (obj_collecting gc).phase ++ waiting (obj_collecting gc)) x
          ≡ includes (waiting gc) x
    same x = ap (λ (t : List ℕ). includes t x) (obj_collecting-waiting gc)

-- The object is put among those that wait.
abbrev with_scheduled : Gc → ℕ → Gc
with_scheduled gc obj = record gc { scheduled = add_to_set gc.scheduled obj }

with_scheduled-waiting :
    (gc : Gc) (obj x : ℕ)
    → includes (waiting (with_scheduled gc obj)) x ≡ ((obj == x) || includes (waiting gc) x)
with_scheduled-waiting gc obj x =
    includes-append gc.wip (add_to_set gc.scheduled obj) x
    ∙ ap (λ (b : Bool). includes gc.wip x || b) (includes-add_to_set gc.scheduled obj x)
    ∙ or_first (includes gc.wip x) (obj == x) (includes gc.scheduled x)
    ∙ ap (λ (b : Bool). (obj == x) || b) (sym (includes-append gc.wip gc.scheduled x))

with_scheduled-held :
    (gc : Gc) (obj x : ℕ)
    → includes (objs_in gc.phase ++ waiting (with_scheduled gc obj)) x
      ≡ ((obj == x) || includes (objs_in gc.phase ++ waiting gc) x)
with_scheduled-held gc obj x =
    includes-append (objs_in gc.phase) (waiting (with_scheduled gc obj)) x
    ∙ ap (λ (b : Bool). includes (objs_in gc.phase) x || b) (with_scheduled-waiting gc obj x)
    ∙ or_first (includes (objs_in gc.phase) x) (obj == x) (includes (waiting gc) x)
    ∙ ap (λ (b : Bool). (obj == x) || b) (sym (includes-append (objs_in gc.phase) (waiting gc) x))

scheduled-Accounts :
    (past : List GcEvent) (gc : Gc) (obj : ℕ)
    → Accounts past gc.phase (waiting gc)
    → Accounts (asked obj ∷ past) gc.phase (waiting (with_scheduled gc obj))
scheduled-Accounts past gc obj (waits, fair) = (
  (λ x h. with_scheduled-waiting gc obj x ∙ or_mono (obj == x) (owed past x) _ (waits x) h),
  (λ x h.
      or_mono (obj == x) _ (was_asked past x) (fair x) (sym (with_scheduled-held gc obj x) ∙ h)),
)

request-Accounts :
    (past : List GcEvent) (gc : Gc) (obj : ℕ)
    → gc.is_stopped ≡ false
    → Accounts past gc.phase (waiting gc)
    → Accounts
        (after_request gc.phase (schedule_collection gc obj).phase (asked obj ∷ past))
        (schedule_collection gc obj).phase
        (waiting (schedule_collection gc obj))
unfolding schedule_collection
request-Accounts past gc obj running accounts =
    if_cases
      (λ (g : Gc). Accounts (after_request gc.phase g.phase (asked obj ∷ past)) g.phase (waiting g))
      gc.is_stopped (λ e. absurd (cc (running, e))) (λ _. by_phase gc.phase refl)
  where
    added : Gc
    added = with_scheduled gc obj

    busy : Accounts (asked obj ∷ past) gc.phase (waiting added)
    busy = scheduled-Accounts past gc obj accounts

    by_phase :
        (p : Phase)
        → gc.phase ≡ p
        → Accounts
            (after_request p (start_if_idle added p).phase (asked obj ∷ past))
            (start_if_idle added p).phase
            (waiting (start_if_idle added p))
    by_phase idle e =
        collecting-Accounts (asked obj ∷ past) added busy.0
          (λ x h. busy.1 x (ap (λ (q : Phase). includes (objs_in q ++ waiting added) x) e ∙ h))
    by_phase returning e = busy
    by_phase (collecting o) e = busy

GcReach-Accounts :
    {past : List GcEvent} {gc : Gc} → GcReach past gc → Accounts past gc.phase (waiting gc)
unfolding stop_gc schedule_collection
GcReach-Accounts made = ((λ x h. cc h), (λ x h. cc h))
GcReach-Accounts (asks {past = past} {gc = gc} reach obj running) =
    request-Accounts past gc obj running (GcReach-Accounts reach)
GcReach-Accounts (ignores {past = past} {gc = gc} reach obj stopped) =
    if_cases (λ (g : Gc). Accounts past g.phase (waiting g)) gc.is_stopped
      (λ _. GcReach-Accounts reach) (λ e. absurd (cc (stopped, e)))
GcReach-Accounts (stops reach) = GcReach-Accounts reach
GcReach-Accounts (collects {past = past} {gc = gc} reach obj e) =
    let (waits, fair) = GcReach-Accounts reach in
    collecting-Accounts past gc waits
      (λ x h. fair x (in_second (objs_in gc.phase) (waiting gc) x h))
GcReach-Accounts (returns_idle {past = past} {gc = gc} reach e) =
    let (waits, fair) = GcReach-Accounts reach in
    (waits, (λ x h. fair x (in_second (objs_in gc.phase) (waiting gc) x h)))

abbrev pub implies : Bool → Bool → Bool
implies a b = not a || b

implies-of_proof : (a b : Bool) → (a ≡ true → b ≡ true) → implies a b ≡ true
implies-of_proof true b h = h refl
implies-of_proof false b h = refl

-- Whatever the order of requests, ends of collection and a stop: an object that was asked for, while
-- the collector was not stopped, with no collection of it begun since, waits in one of the sets; and
-- every object that waits or is being collected was asked for. This is not to say that anything
-- runs: an object may wait while nothing is collected.
pub GcReach-owed :
    {past : List GcEvent} {gc : Gc} (x : ℕ)
    → GcReach past gc
    → (implies (owed past x) (includes (waiting gc) x) ≡ true)
      × (implies (includes (objs_in gc.phase ++ waiting gc) x) (was_asked past x) ≡ true)
GcReach-owed x reach =
    let (waits, fair) = GcReach-Accounts reach in
    (implies-of_proof _ _ (waits x), implies-of_proof _ _ (fair x))
