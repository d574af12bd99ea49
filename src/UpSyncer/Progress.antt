-- ===== src/UpSyncer/Progress.antt =====
-- Tasks that upload a whole version, of ts-code/core/storage/synced/upsyncer.ts, through any
-- replies of the server.
use core_3nweb_client_lib.Base.{
  ℕ, ◌≡◌, refl, Bool, true, false, Option, none, some, List, [], ◌∷◌, Outcome, ok, throws,
  Bool-cases, inl, inr,
}
use core_3nweb_client_lib.StatusInfo.{
  NeedUpload, ordered_whole, ordered_diff, WholeVerOrderedUpload, StatusError,
}
use core_3nweb_client_lib.ObjStatus.{
  ObjStatus, record_upload_interim_state, record_upload_completion,
}
use core_3nweb_client_lib.UpSyncer.{
  Source, Reply, UploadError, connect, no_transaction, assertion, files, http, of_status, is_id,
  header_to_upload, upload_round, Round,
}
use core_3nweb_client_lib.UpSyncer.Task.{
  Completion, pending, resolved, rejected, UploadTask, settle, with_need, noted, fail, on_error,
  after_completion, after_record, after_saved, complete, after_round, process, process_needed,
}
use core_3nweb_client_lib.UpSyncer.Server.{Stored, stored, IsSource}
use core_3nweb_client_lib.UpSyncer.Whole.{
  held_of, IsAt, IsNeedAt, IsAccepted, IsRoundAt, request_answered, IsRound, upload_round-IsRound,
}

-- `process` called once for every reply. A throw out of it leaves the task as it is then.
unfoldable pub process_all : Source → UploadTask → List (Reply × Bool) → UploadTask
unfolding process
process_all src t [] = t
process_all src t ((reply, files_moved) ∷ rest) =
    process_all src (process src t reply files_moved).0 rest

-- Where an upload is, from what is needed, how its promise is settled, and what the server has.
abbrev pub IsProgress :
    ℕ → List ℕ → List ℕ → Option NeedUpload → Completion → Option Stored → Type 0
IsProgress ver header bytes (some need) completion s =
    (completion ≡ pending) × IsNeedAt ver header bytes need s
IsProgress ver header bytes none resolved s = s ≡ held_of ver header bytes true
IsProgress ver header bytes none pending s = IsAccepted s
IsProgress ver header bytes none rejected s = IsAccepted s

-- The task is of this version and header.
abbrev pub IsOf : ℕ → Option (List ℕ) → UploadTask → Type 0
IsOf ver given t = (t.info.upload_version ≡ ver) × (t.upload_header ≡ given)

unfoldable pub IsUploading : ℕ → Option (List ℕ) → List ℕ → List ℕ → UploadTask → Type 0
unfolding stored
IsUploading ver given header bytes t =
    IsOf ver given t
    × IsProgress ver header bytes t.info.need_upload t.completion (stored t.requests)

module _ (ver : ℕ) (given : Option (List ℕ)) (header bytes : List ℕ) where
  -- A settled or given up upload stays as it was on the server.
  settle-IsProgress :
      (completion : Completion) (s : Option Stored)
      → IsProgress ver header bytes none completion s
      → IsProgress ver header bytes none (settle completion rejected) s
  settle-IsProgress pending s h = h
  settle-IsProgress resolved s h = h
  settle-IsProgress rejected s h = h

  fail-IsUploading :
      (t : UploadTask) (e : UploadError)
      → IsOf ver given t
      → IsProgress ver header bytes none t.completion (stored t.requests)
      → IsUploading ver given header bytes (fail t e).0
  unfolding IsUploading fail with_need
  fail-IsUploading t e own h = (own, settle-IsProgress t.completion (stored t.requests) h)

  IsProgress-none :
      (completion : Completion) (s : Option Stored)
      → completion ≡ pending
      → IsAccepted s
      → IsProgress ver header bytes none completion s
  IsProgress-none pending s e h = h
  IsProgress-none resolved s e h = cc
  IsProgress-none rejected s e h = cc

  -- A task whose request failed.
  failed-IsUploading :
      (t : UploadTask) (e : UploadError)
      → IsOf ver given t
      → t.completion ≡ pending
      → IsAccepted (stored t.requests)
      → IsUploading ver given header bytes (fail t e).0
  failed-IsUploading t e own open_promise h =
      fail-IsUploading t e own (IsProgress-none t.completion (stored t.requests) open_promise h)

  after_completion-IsUploading :
      (t : UploadTask) (r : ObjStatus × Outcome StatusError (Unit {0}))
      → IsOf ver given t
      → t.info.need_upload ≡ none
      → t.completion ≡ resolved
      → stored t.requests ≡ held_of ver header bytes true
      → IsUploading ver given header bytes (after_completion t r).0
  unfolding IsUploading after_completion on_error fail with_need
  after_completion-IsUploading t (s, throws e) own none_needed settled on_server =
      (own, rw settled on_server)
  after_completion-IsUploading t (s, ok u) own none_needed settled on_server =
      (own, rw none_needed (rw settled on_server))

  complete-IsUploading :
      (t : UploadTask) (files_moved : Bool)
      → IsOf ver given t
      → t.info.need_upload ≡ none
      → t.completion ≡ pending
      → stored t.requests ≡ held_of ver header bytes true
      → IsUploading ver given header bytes (complete t files_moved).0
  unfolding IsUploading complete on_error fail with_need
  complete-IsUploading t true own none_needed open_promise on_server =
      after_completion-IsUploading (record t { completion = settle t.completion resolved })
        (record_upload_completion t.obj_status t.info.local_version t.info.upload_version) own
        none_needed (rw open_promise refl) on_server
  complete-IsUploading t false own none_needed open_promise on_server =
      (own, rw open_promise on_server)

  IsAt-IsAccepted :
      (w : WholeVerOrderedUpload) (s : Option Stored) → IsAt ver header bytes w s → IsAccepted s
  IsAt-IsAccepted w s here = elim (Bool-cases (is_id w.transaction_id)) [
    | inl id ↦ (_, (rw id at here.1).1)
    | inr id ↦ (_, (rw id at here.1).2)
  ]

  IsRoundAt-IsAccepted :
      (need : Option NeedUpload) (s : Option Stored)
      → IsRoundAt ver header bytes (ok tt) need s
      → IsAccepted s
  IsRoundAt-IsAccepted none s h = (_, h)
  IsRoundAt-IsAccepted (some (ordered_whole w)) s h = IsAt-IsAccepted w s h
  IsRoundAt-IsAccepted (some (ordered_diff d)) s h = absurd h

  needed-IsUploading :
      (t : UploadTask) (need : NeedUpload)
      → IsOf ver given t
      → t.info.need_upload ≡ some need
      → t.completion ≡ pending
      → IsNeedAt ver header bytes need (stored t.requests)
      → IsUploading ver given header bytes t
  unfolding IsUploading
  needed-IsUploading t need own e open_promise h = (own, rw e (open_promise, h))

  after_saved-IsUploading :
      (t : UploadTask) (files_moved : Bool) (need : Option NeedUpload)
      → IsOf ver given t
      → t.info.need_upload ≡ need
      → t.completion ≡ pending
      → IsRoundAt ver header bytes (ok tt) need (stored t.requests)
      → IsUploading ver given header bytes (after_saved t files_moved need).0
  unfolding after_saved
  after_saved-IsUploading t files_moved none own e open_promise h =
      complete-IsUploading t files_moved own e open_promise h
  after_saved-IsUploading t files_moved (some need) own e open_promise h =
      needed-IsUploading t need own e open_promise h

  after_record-IsUploading :
      (t : UploadTask) (files_moved : Bool) (r : ObjStatus × Outcome StatusError (Unit {0}))
      → IsOf ver given t
      → t.completion ≡ pending
      → IsRoundAt ver header bytes (ok tt) t.info.need_upload (stored t.requests)
      → IsUploading ver given header bytes (after_record t files_moved r).0
  unfolding after_record on_error
  after_record-IsUploading t files_moved (s, throws e) own open_promise h =
      failed-IsUploading (record t { obj_status = s }) (of_status e) own open_promise
        (IsRoundAt-IsAccepted t.info.need_upload (stored t.requests) h)
  after_record-IsUploading t files_moved (s, ok u) own open_promise h =
      after_saved-IsUploading (record t { obj_status = s }) files_moved t.info.need_upload own refl
        open_promise h

  disconnected-IsUploading :
      (t : UploadTask)
      → IsOf ver given t
      → t.completion ≡ pending
      → IsRoundAt ver header bytes (throws connect) t.info.need_upload (stored t.requests)
      → IsUploading ver given header bytes t
  disconnected-IsUploading t own open_promise h = by_need t.info.need_upload refl
    where
      by_need :
          (need : Option NeedUpload)
          → t.info.need_upload ≡ need
          → IsUploading ver given header bytes t
      by_need none e = absurd (rw e at h)
      by_need (some need) e = needed-IsUploading t need own e open_promise (rw e at h)

  after_round-IsUploading :
      (t : UploadTask) (files_moved : Bool) (r : Outcome UploadError (Unit {0}))
      → IsOf ver given t
      → t.completion ≡ pending
      → IsRoundAt ver header bytes r t.info.need_upload (stored t.requests)
      → IsUploading ver given header bytes (after_round t files_moved r).0
  unfolding after_round on_error
  after_round-IsUploading t m (throws connect) own o h = disconnected-IsUploading t own o h
  after_round-IsUploading t m (throws no_transaction) own o h =
      failed-IsUploading t no_transaction own o h
  after_round-IsUploading t m (throws assertion) own o h = failed-IsUploading t assertion own o h
  after_round-IsUploading t m (throws files) own o h = failed-IsUploading t files own o h
  after_round-IsUploading t m (throws (http b)) own o h = failed-IsUploading t (http b) own o h
  after_round-IsUploading t m (throws (of_status e)) own o h =
      failed-IsUploading t (of_status e) own o h
  after_round-IsUploading t m (ok u) own o h =
      after_record-IsUploading t m (record_upload_interim_state t.obj_status t.info) own o h

  noted-IsUploading :
      (t : UploadTask) (r : Round) (reply : Reply) (files_moved : Bool)
      → IsOf ver given t
      → t.completion ≡ pending
      → IsRound ver header bytes r reply (stored t.requests)
      → IsUploading ver given header bytes
          (after_round (noted (with_need t r.1) r.0 reply) files_moved r.2).0
  unfolding IsRound request_answered stored with_need
  noted-IsUploading t (none, need, res) reply m own o h =
      after_round-IsUploading (with_need t need) m res own o h
  noted-IsUploading t (some request, need, res) reply m own o h =
      after_round-IsUploading (noted (with_need t need) (some request) reply) m res own o h

  pub process_needed-IsUploading :
      (src : Source) (t : UploadTask) (reply : Reply) (files_moved : Bool)
      (need : Option NeedUpload)
      → IsSource bytes src
      → header_to_upload src given ≡ header
      → t.info.need_upload ≡ need
      → IsUploading ver given header bytes t
      → IsUploading ver given header bytes (process_needed src t reply files_moved need).0
  unfolding process_needed IsUploading
  process_needed-IsUploading src t reply m none reads head e h = h
  process_needed-IsUploading src t reply m (some (ordered_whole w)) reads head e (own, h) =
      let (open_promise, here) = rw e at h in
      noted-IsUploading t
        (upload_round src t.upload_header t.info.upload_version (ordered_whole w) reply) reply m own
        open_promise
        (rw own.0 (
          rw own.1 (
            upload_round-IsRound ver header bytes src given w reply (stored t.requests) reads head
              here)))
  process_needed-IsUploading src t reply m (some (ordered_diff d)) reads head e (own, h) =
      absurd (rw e at h).1

  pub process_all-IsUploading :
      (src : Source) (t : UploadTask) (replies : List (Reply × Bool))
      → IsSource bytes src
      → header_to_upload src given ≡ header
      → IsUploading ver given header bytes t
      → IsUploading ver given header bytes (process_all src t replies)
  unfolding process_all process
  process_all-IsUploading src t [] reads head h = h
  process_all-IsUploading src t ((reply, m) ∷ rest) reads head h =
      process_all-IsUploading src (process src t reply m).0 rest reads head
        (process_needed-IsUploading src t reply m t.info.need_upload reads head refl h)

  pub resolved-stored :
      (t : UploadTask)
      → IsUploading ver given header bytes t
      → t.completion ≡ resolved
      → stored t.requests ≡ held_of ver header bytes true
  unfolding IsUploading
  resolved-stored t (own, h) e = by_need t.info.need_upload refl
    where
      by_need :
          (need : Option NeedUpload)
          → t.info.need_upload ≡ need
          → stored t.requests ≡ held_of ver header bytes true
      by_need none n = rw e at (rw n at h)
      by_need (some need) n = cc (rw n at h).0
