-- ===== src/ObjGc/Turns.antt =====
-- The order in which objects are collected, of ts-code/core/storage/synced/obj-files-gc.ts.
use core_3nweb_client_lib.Base.{
  ℕ, zero, suc, ◌+◌, ◌<◌, ◌≡◌, refl, ap, ◌∙◌, arith, Bool, List, [], ◌∷◌, ◌++◌, append-nil, length,
}
use core_3nweb_client_lib.ObjGc.Objects.{
  Gc, Phase, idle, returning, collecting, obj_collecting, swapped, collect_all,
}

-- The objects that are still to be collected, in their order.
abbrev pub waiting : Gc → List ℕ
waiting gc = gc.wip ++ gc.scheduled

abbrev pub objs_in : Phase → List ℕ
objs_in idle = []
objs_in returning = []
objs_in (collecting obj) = obj ∷ []

-- What is taken next was first of what waits.
pub obj_collecting-waiting :
    (gc : Gc) → objs_in (obj_collecting gc).phase ++ waiting (obj_collecting gc) ≡ waiting gc
unfolding obj_collecting
obj_collecting-waiting gc = by_sets gc.wip gc.scheduled
  where
    by_sets :
        (wip scheduled : List ℕ)
        → objs_in (swapped gc wip scheduled).phase ++ waiting (swapped gc wip scheduled)
          ≡ wip ++ scheduled
    by_sets [] [] = refl
    by_sets [] (x ∷ scheduled) = ap (◌∷◌ x) (append-nil scheduled)
    by_sets (x ∷ wip) scheduled = refl

abbrev ended : Bool → Gc
ended stopped = record { is_stopped = stopped; phase = idle; wip = []; scheduled = [] }

abbrev obj_first : ℕ → List ℕ × Gc → List ℕ × Gc
obj_first obj (objs, gc) = (obj ∷ objs, gc)

-- With enough rounds all objects that wait get collected, and the action ends.
all_in_turn :
    (fuel : ℕ) (wip scheduled : List ℕ) (stopped : Bool) (obj : ℕ)
    → length wip + length scheduled + 1 < fuel
    → collect_all fuel
        (record { is_stopped = stopped; phase = collecting obj; wip = wip; scheduled = scheduled })
      ≡ (obj ∷ wip ++ scheduled, ended stopped)
unfolding collect_all obj_collecting
all_in_turn zero wip scheduled stopped obj h = absurd (omega arith)
all_in_turn (suc zero) wip scheduled stopped obj h = absurd (omega arith)
all_in_turn (suc (suc f)) [] [] stopped obj h = refl
all_in_turn (suc (suc f)) [] (x ∷ scheduled) stopped obj h =
    ap (obj_first obj) (all_in_turn (suc f) scheduled [] stopped x (omega arith))
    ∙ ap (λ (objs : List ℕ). (obj ∷ objs, ended stopped)) (append-nil (x ∷ scheduled))
all_in_turn (suc (suc f)) (x ∷ wip) scheduled stopped obj h =
    ap (obj_first obj) (all_in_turn (suc f) wip scheduled stopped x (omega arith))

-- While an object is being collected and nothing more is scheduled, the objects of the current set
-- are collected after it, and then the scheduled ones, in their order; an object that stands in
-- both sets is collected for each. Then the action ends, with both sets empty.
pub collect_all-waiting :
    (gc : Gc) (obj : ℕ)
    → gc.phase ≡ collecting obj
    → collect_all (length gc.wip + length gc.scheduled + 2) gc
      ≡ (obj ∷ waiting gc, record gc { phase = idle; wip = []; scheduled = [] })
collect_all-waiting gc obj e =
    ap
      (λ (p : Phase).
        collect_all (length gc.wip + length gc.scheduled + 2) (record gc { phase = p }))
      e
    ∙ all_in_turn _ gc.wip gc.scheduled gc.is_stopped obj (omega arith)
