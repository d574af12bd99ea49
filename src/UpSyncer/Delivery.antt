-- ===== src/UpSyncer/Delivery.antt =====
-- Whole uploads of ts-code/core/storage/synced/upsyncer.ts from their start to their end.
use core_3nweb_client_lib.Base.{
  ℕ, suc, ◌+◌, ◌≤◌, ◌<◌, ◌≡◌, refl, sym, subst, arith, Bool, true, false, Option, none, some, List,
  [], ◌∷◌, ==_refl, length, Outcome, ok, throws, All, Bool-cases, ◌⊎◌, inl, inr,
}
use core_3nweb_client_lib.StatusInfo.{
  NeedUpload, ordered_whole, ordered_diff, WholeVerOrderedUpload, StatusError, new_version,
}
use core_3nweb_client_lib.ObjStatus.{
  ObjStatus, save, record_upload_interim_state, record_upload_completion,
}
use core_3nweb_client_lib.UpSyncer.{
  Source, Reply, saved, disconnected, refused, connect, is_id, header_to_upload, max_upload_chunk,
  upload_round, Round,
}
use core_3nweb_client_lib.UpSyncer.Task.{
  pending, resolved, UploadTask, settle, share, with_need, noted, fail, on_error, complete,
  after_completion, after_record, after_saved, after_round, process, process_needed,
}
use core_3nweb_client_lib.UpSyncer.Server.{Stored, stored, IsSource}
use core_3nweb_client_lib.UpSyncer.Whole.{IsAt}
use core_3nweb_client_lib.UpSyncer.Progress.{IsUploading, process_all, process_needed-IsUploading}
use core_3nweb_client_lib.UpSyncer.Ending.{
  IsOnward, upload_round-IsOnward, upload_round-disconnected,
}

-- The object's status holds the upload.
abbrev pub IsRecorded : UploadTask → Type 0
IsRecorded t = t.obj_status.status.upload ≡ some (new_version t.info)

abbrev pub IsDone : UploadTask → Type 0
IsDone t = (t.completion ≡ resolved) × (t.info.need_upload ≡ none)

-- At most this many bytes are left.
abbrev pub IsLeft : ℕ → UploadTask → Type 0
IsLeft n t =
    (w : WholeVerOrderedUpload) × (t.info.need_upload ≡ some (ordered_whole w))
    × (w.segs_left ≤ n)
    × IsRecorded t
    × (t.completion ≡ pending)

pub share-IsRecorded :
    (t : UploadTask) (need : Option NeedUpload) → IsRecorded t → IsRecorded (with_need t need)
unfolding with_need share
share-IsRecorded t need recorded = rw recorded (rw (==_refl t.info.upload_version) refl)

record_interim-eq :
    (t : UploadTask)
    → IsRecorded t
    → record_upload_interim_state t.obj_status t.info ≡ (
      save t.obj_status (record t.obj_status.status { upload = some (new_version t.info) }),
      ok tt,
    )
unfolding record_upload_interim_state
record_interim-eq t recorded =
    rw (record_upload_interim_state, recorded) (rw (==_refl t.info.upload_version) refl)

after_completion-IsDone :
    (t : UploadTask) (r : ObjStatus × Outcome StatusError (Unit {0}))
    → IsDone t
    → IsDone (after_completion t r).0
unfolding after_completion on_error fail with_need
after_completion-IsDone t (s, throws e) done = (rw done.0 refl, refl)
after_completion-IsDone t (s, ok u) done = done

complete-IsDone :
    (t : UploadTask) (files_moved : Bool)
    → t.completion ≡ pending
    → t.info.need_upload ≡ none
    → IsDone (complete t files_moved).0
unfolding complete on_error fail with_need
complete-IsDone t true open_promise none_needed =
    after_completion-IsDone (record t { completion = settle t.completion resolved })
      (record_upload_completion t.obj_status t.info.local_version t.info.upload_version)
      (rw open_promise refl, none_needed)
complete-IsDone t false open_promise none_needed = (rw open_promise refl, refl)

after_saved-IsDone :
    (t : UploadTask) (files_moved : Bool) (need : Option NeedUpload)
    → t.completion ≡ pending
    → t.info.need_upload ≡ none
    → need ≡ none
    → IsDone (after_saved t files_moved need).0
unfolding after_saved
after_saved-IsDone t m none open_promise none_needed e =
    complete-IsDone t m open_promise none_needed
after_saved-IsDone t m (some need) open_promise none_needed e = cc

after_ok-IsDone :
    (t : UploadTask) (files_moved : Bool)
    → IsRecorded t
    → t.completion ≡ pending
    → t.info.need_upload ≡ none
    → IsDone (after_round t files_moved (ok tt)).0
unfolding after_round
after_ok-IsDone t m recorded open_promise none_needed =
    rw (after_round, after_record, after_saved, record_interim-eq t recorded)
      (after_saved-IsDone
        (record t { obj_status = (record_upload_interim_state t.obj_status t.info).0 }) m
        t.info.need_upload open_promise none_needed none_needed)

after_saved-IsLeft :
    (t : UploadTask) (files_moved : Bool) (need : Option NeedUpload) (w : WholeVerOrderedUpload)
    → IsRecorded t
    → t.completion ≡ pending
    → t.info.need_upload ≡ some (ordered_whole w)
    → need ≡ some (ordered_whole w)
    → IsLeft w.segs_left (after_saved t files_moved need).0
unfolding after_saved
after_saved-IsLeft t m none w recorded open_promise needed e = cc
after_saved-IsLeft t m (some need) w recorded open_promise needed e =
    (w, needed, omega arith, recorded, open_promise)

after_ok-IsLeft :
    (t : UploadTask) (files_moved : Bool) (w : WholeVerOrderedUpload)
    → IsRecorded t
    → t.completion ≡ pending
    → t.info.need_upload ≡ some (ordered_whole w)
    → IsLeft w.segs_left (after_round t files_moved (ok tt)).0
unfolding after_round save
after_ok-IsLeft t m w recorded open_promise needed =
    rw (after_round, record_interim-eq t recorded)
      (after_saved-IsLeft
        (record t {
          obj_status =
              save t.obj_status (record t.obj_status.status { upload = some (new_version t.info) });
        })
        m t.info.need_upload w refl open_promise needed needed)

-- A saved request of a task that has at most `suc n` bytes to send.
onward-IsLeft :
    (t : UploadTask) (r : Round) (reply : Reply) (files_moved : Bool) (w : WholeVerOrderedUpload)
    → IsRecorded t
    → t.completion ≡ pending
    → IsOnward w r
    → let t' = (after_round (noted (with_need t r.1) r.0 reply) files_moved r.2).0 in
      IsDone t' ⊎ ((n : ℕ) × (n < w.segs_left) × IsLeft n t')
unfolding with_need
onward-IsLeft t (none, none, res) reply m w recorded o h =
    rw h.0 (inl (after_ok-IsDone (with_need t none) m (share-IsRecorded t none recorded) o refl))
onward-IsLeft t (some request, none, res) reply m w recorded o h = rw h.0 (
    inl (
      after_ok-IsDone (noted (with_need t none) (some request) reply) m
        (share-IsRecorded t none recorded) o refl))
onward-IsLeft t (none, some (ordered_whole v), res) reply m w recorded o h = rw h.0 (
    inr (
      v.segs_left,
      h.1,
      after_ok-IsLeft (with_need t (some (ordered_whole v))) m v
          (share-IsRecorded t (some (ordered_whole v)) recorded) o refl,
    ))
onward-IsLeft t (some request, some (ordered_whole v), res) reply m w recorded o h = rw h.0 (
    inr (
      v.segs_left,
      h.1,
      after_ok-IsLeft (noted (with_need t (some (ordered_whole v))) (some request) reply) m v
          (share-IsRecorded t (some (ordered_whole v)) recorded) o refl,
    ))
onward-IsLeft t (request, some (ordered_diff d), res) reply m w recorded o h = absurd h.1

-- A request that is lost.
lost-IsLeft :
    (t : UploadTask) (r : Round) (reply : Reply) (files_moved : Bool) (w : WholeVerOrderedUpload)
    → IsRecorded t
    → t.completion ≡ pending
    → (r.2 ≡ throws connect) × (r.1 ≡ some (ordered_whole w))
    → IsLeft w.segs_left (after_round (noted (with_need t r.1) r.0 reply) files_moved r.2).0
unfolding with_need after_round on_error
lost-IsLeft t (none, need, res) reply m w recorded o h =
    rw (h.0, h.1) (w, refl, omega arith, share-IsRecorded t (some (ordered_whole w)) recorded, o)
lost-IsLeft t (some request, need, res) reply m w recorded o h =
    rw (h.0, h.1) (w, refl, omega arith, share-IsRecorded t (some (ordered_whole w)) recorded, o)

processed-IsDone :
    (src : Source) (t : UploadTask) (reply : Reply) (files_moved : Bool) (need : Option NeedUpload)
    → need ≡ none
    → IsDone t
    → IsDone (process_needed src t reply files_moved need).0
unfolding process_needed
processed-IsDone src t reply m none e done = done
processed-IsDone src t reply m (some need) e done = cc

process_all-IsDone :
    (src : Source) (t : UploadTask) (replies : List (Reply × Bool))
    → IsDone t
    → IsDone (process_all src t replies)
unfolding process_all process
process_all-IsDone src t [] done = done
process_all-IsDone src t ((reply, m) ∷ rest) done =
    process_all-IsDone src (process src t reply m).0 rest
      (processed-IsDone src t reply m t.info.need_upload done.1 done)

-- Replies that lose a request, or save it with an id of a transaction, and how many save.
abbrev pub is_good : Reply → Bool
is_good (saved trans) = is_id trans
is_good disconnected = true
is_good (refused b) = false

abbrev pub saves_in : List (Reply × Bool) → ℕ
saves_in [] = 0
saves_in ((saved trans, m) ∷ rest) = suc (saves_in rest)
saves_in ((disconnected, m) ∷ rest) = saves_in rest
saves_in ((refused b, m) ∷ rest) = saves_in rest

left_positive :
    (ver : ℕ) (header bytes : List ℕ) (w : WholeVerOrderedUpload) (s : Option Stored)
    → IsAt ver header bytes w s
    → 0 < length bytes
    → 0 < w.segs_left
left_positive ver header bytes w s here some_bytes = elim (Bool-cases (is_id w.transaction_id)) [
  | inl e ↦ (rw e at here.1).0
  | inr e ↦ omega (arith, here.0, (rw e at here.1).0)
]

module _ (ver : ℕ) (given : Option (List ℕ)) (header bytes : List ℕ) (src : Source)
    (reads : IsSource bytes src) (head : header_to_upload src given ≡ header)
    (fits : length header + 1 < max_upload_chunk src) (some_bytes : 0 < length bytes) where
  -- Where a task that is under way stands.
  task-IsAt :
      (t : UploadTask) (w : WholeVerOrderedUpload)
      → t.info.need_upload ≡ some (ordered_whole w)
      → IsUploading ver given header bytes t
      → IsAt ver header bytes w (stored t.requests)
  unfolding IsUploading
  task-IsAt t w e (own, h) = (rw e at h).1

  -- One request that is saved, and one that is lost.
  saved-IsLeft :
      (t : UploadTask) (trans : Option (List ℕ)) (m : Bool) (w : WholeVerOrderedUpload)
      → t.info.need_upload ≡ some (ordered_whole w)
      → is_id trans ≡ true
      → IsUploading ver given header bytes t
      → IsRecorded t
      → t.completion ≡ pending
      → let t' = (process src t (saved trans) m).0 in
        IsDone t' ⊎ ((k : ℕ) × (k < w.segs_left) × IsLeft k t')
  unfolding process process_needed
  saved-IsLeft t trans m w e id h recorded o =
      subst
        (λ (need : Option NeedUpload).
          let t' = (process_needed src t (saved trans) m need).0 in
          IsDone t' ⊎ ((k : ℕ) × (k < w.segs_left) × IsLeft k t'))
        (sym e)
        (onward-IsLeft t
          (upload_round src t.upload_header t.info.upload_version (ordered_whole w) (saved trans))
          (saved trans) m w recorded o
          (upload_round-IsOnward bytes src reads t.upload_header ver t.info.upload_version header w
            trans (stored t.requests) (task-IsAt t w e h) fits some_bytes id))

  disconnected-IsLeft :
      (t : UploadTask) (m : Bool) (w : WholeVerOrderedUpload)
      → t.info.need_upload ≡ some (ordered_whole w)
      → IsUploading ver given header bytes t
      → IsRecorded t
      → t.completion ≡ pending
      → IsLeft w.segs_left (process src t disconnected m).0
  unfolding process process_needed
  disconnected-IsLeft t m w e h recorded o =
      subst
        (λ (need : Option NeedUpload).
          IsLeft w.segs_left (process_needed src t disconnected m need).0)
        (sym e)
        (lost-IsLeft t
          (upload_round src t.upload_header t.info.upload_version (ordered_whole w) disconnected)
          disconnected m w recorded o
          (upload_round-disconnected bytes src reads t.upload_header ver t.info.upload_version
            header w (stored t.requests) (task-IsAt t w e h) fits some_bytes))

  process-IsUploading :
      (t : UploadTask) (reply : Reply) (m : Bool)
      → IsUploading ver given header bytes t
      → IsUploading ver given header bytes (process src t reply m).0
  unfolding process
  process-IsUploading t reply m h =
      process_needed-IsUploading ver given header bytes src t reply m t.info.need_upload reads head
        refl h

  -- As many saved requests as there are bytes bring an upload to its end.
  pub process_all-IsDone_of_saves :
      (t : UploadTask) (replies : List (Reply × Bool)) (n : ℕ)
      → All (λ (r : Reply × Bool). is_good r.0 ≡ true) replies
      → n ≤ saves_in replies
      → IsUploading ver given header bytes t
      → IsLeft n t
      → IsDone (process_all src t replies)
  unfolding process_all
  process_all-IsDone_of_saves t [] n good le h (w, e, left, recorded, o) = absurd (
      omega (
        arith,
        left,
        le,
        left_positive ver header bytes w (stored t.requests) (task-IsAt t w e h) some_bytes,
      ))
  process_all-IsDone_of_saves t ((saved trans, m) ∷ rest) n good le h (w, e, left, recorded, o) =
      let t' = (process src t (saved trans) m).0 in
      elim (saved-IsLeft t trans m w e good.0 h recorded o) [
        | inl done ↦ process_all-IsDone src t' rest done
        | inr r ↦
            process_all-IsDone_of_saves t' rest r.0 good.1 (omega (arith, left, le, r.1))
              (process-IsUploading t (saved trans) m h) r.2
      ]
  process_all-IsDone_of_saves t ((disconnected, m) ∷ rest) n good le h (w, e, left, recorded, o) =
      process_all-IsDone_of_saves (process src t disconnected m).0 rest w.segs_left good.1
        (omega (arith, left, le)) (process-IsUploading t disconnected m h)
        (disconnected-IsLeft t m w e h recorded o)
  process_all-IsDone_of_saves t ((refused b, m) ∷ rest) n good le h left = cc good.0
