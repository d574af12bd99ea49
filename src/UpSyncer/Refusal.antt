-- ===== src/UpSyncer/Refusal.antt =====
-- Uploads that the server refuses, of ts-code/core/storage/synced/upsyncer.ts.
use core_3nweb_client_lib.Base.{
  ℕ, min, ◌≡◌, refl, sym, ap, subst, Bool, true, false, Option, none, some, List, [], ◌∷◌, ltb, ◌-◌,
  ◌==◌, ==_refl, if◌then◌else◌, length, Outcome, ok, throws, Outcome-cases, inl, inr, if_cases,
  ◌>>=◌, ◌∙◌,
}
use core_3nweb_client_lib.StatusInfo.{
  WholeVerOrderedUpload, DiffVerOrderedUpload, NeedUpload, ordered_whole, ordered_diff,
  ObjStatusInfo, StatusError,
}
use core_3nweb_client_lib.ObjStatus.{ObjStatus, save, record_upload_cancellation}
use core_3nweb_client_lib.UpSyncer.{
  Source, Reply, refused, UploadError, connect, no_transaction, assertion, files, http, of_status,
  is_id, Round, max_upload_chunk, checked_segs, max_first_segs, first_segs, when_saved,
  send_first_segs, start_ordered_upload, start_ordered_diff_upload, send_segs,
  continue_ordered_upload, send_piece, continue_pieces, continue_ordered_diff_upload, upload_round,
}
use core_3nweb_client_lib.UpSyncer.Task.{
  pending, rejected, UploadTask, share, with_need, noted, fail, on_error, and_done, after_round,
  process, process_needed,
}
use core_3nweb_client_lib.UpSyncer.Delivery.{IsRecorded, share-IsRecorded}

abbrev pub is_connect : UploadError → Bool
is_connect connect = true
is_connect _ = false

-- What is thrown, if anything is, is not a lost connection.
abbrev pub IsOther : {A : Type 0} → Outcome UploadError A → Type 0
IsOther (ok a) = Unit
IsOther (throws e) = is_connect e ≡ false

abbrev pub IsThrown : {A : Type 0} → Outcome UploadError A → Type 0
IsThrown (ok a) = ⊥
IsThrown (throws e) = is_connect e ≡ false

checked_segs-IsOther : (o : Option (List ℕ)) (n : ℕ) → IsOther (checked_segs o n)
unfolding checked_segs
checked_segs-IsOther none n = refl
checked_segs-IsOther (some segs) n = if_cases IsOther (length segs == n) (λ _. tt) (λ _. refl)

max_first_segs-IsOther : (src : Source) (h : Option ℕ) (n : ℕ) → IsOther (max_first_segs src h n)
unfolding max_first_segs
max_first_segs-IsOther src none n = refl
max_first_segs-IsOther src (some h) n =
    if_cases IsOther (ltb 1 (max_upload_chunk src - h - n)) (λ _. tt) (λ _. refl)

>>=-IsOther :
    {A B : Type 0} (m : Outcome UploadError A) (next : A → Outcome UploadError B)
    → IsOther m
    → ((a : A) → IsOther (next a))
    → IsOther (m >>= next)
>>=-IsOther (ok a) next hm hn = hn a
>>=-IsOther (throws e) next hm hn = hm

first_segs-IsOther : (src : Source) (w : WholeVerOrderedUpload) → IsOther (first_segs src w)
unfolding first_segs
first_segs-IsOther src w =
    >>=-IsOther (max_first_segs src w.header 0) _ (max_first_segs-IsOther src w.header 0) (λ m.
      let len = min w.segs_left m in
      >>=-IsOther (checked_segs (if ltb 0 len then src.read_at w.segs_ofs len else none) len) _
        (checked_segs-IsOther (if ltb 0 len then src.read_at w.segs_ofs len else none) len)
        (λ _. tt))

module _ (src : Source) (refusal : Bool) where
  start_ordered_upload-IsThrown :
      (given : Option (List ℕ)) (ver : ℕ) (w : WholeVerOrderedUpload)
      → IsThrown (start_ordered_upload src given ver w (refused refusal)).2
  unfolding start_ordered_upload send_first_segs when_saved
  start_ordered_upload-IsThrown given ver w = elim (Outcome-cases (first_segs src w)) [
    | inl r ↦ rw (start_ordered_upload, r.1) refl
    | inr e ↦ rw (start_ordered_upload, e.1) (rw e.1 at (first_segs-IsOther src w))
  ]

  start_ordered_diff_upload-IsThrown :
      (given : Option (List ℕ)) (ver : ℕ) (d : DiffVerOrderedUpload)
      → IsThrown (start_ordered_diff_upload src given ver d (refused refusal)).2
  unfolding start_ordered_diff_upload when_saved
  start_ordered_diff_upload-IsThrown given ver d =
      let m = max_first_segs src d.header (length (src.diff_bytes d.diff)) in
      elim (Outcome-cases m) [
        | inl r ↦ rw (start_ordered_diff_upload, r.1) refl
        | inr e ↦
            rw (start_ordered_diff_upload, e.1)
              (rw e.1 at (max_first_segs-IsOther src d.header (length (src.diff_bytes d.diff))))
      ]

  continue_ordered_upload-IsThrown :
      (w : WholeVerOrderedUpload) → IsThrown (continue_ordered_upload src w (refused refusal)).2
  unfolding continue_ordered_upload send_segs when_saved
  continue_ordered_upload-IsThrown w =
      let len = min w.segs_left (max_upload_chunk src) in
      elim (Outcome-cases (checked_segs (src.read_at w.segs_ofs len) len)) [
        | inl r ↦ rw (continue_ordered_upload, r.1) refl
        | inr e ↦
            rw (continue_ordered_upload, e.1)
              (rw e.1 at (checked_segs-IsOther (src.read_at w.segs_ofs len) len))
      ]

  continue_pieces-IsThrown :
      (d : DiffVerOrderedUpload) (pieces : List (ℕ × ℕ))
      → IsThrown (continue_pieces src d (refused refusal) pieces).2
  unfolding continue_pieces send_piece when_saved
  continue_pieces-IsThrown d [] = refl
  continue_pieces-IsThrown d ((ofs, piece_len) ∷ rest) =
      let len = min (max_upload_chunk src) piece_len in
      elim (Outcome-cases (checked_segs (src.read_at ofs len) len)) [
        | inl r ↦ rw (continue_pieces, r.1) refl
        | inr e ↦
            rw (continue_pieces, e.1) (rw e.1 at (checked_segs-IsOther (src.read_at ofs len) len))
      ]

  upload_round-IsThrown :
      (given : Option (List ℕ)) (ver : ℕ) (need : NeedUpload)
      → IsThrown (upload_round src given ver need (refused refusal)).2
  unfolding upload_round continue_ordered_diff_upload
  upload_round-IsThrown given ver (ordered_whole w) =
      if_cases (λ (r : Round). IsThrown r.2) (is_id w.transaction_id)
        (λ _. continue_ordered_upload-IsThrown w) (λ _. start_ordered_upload-IsThrown given ver w)
  upload_round-IsThrown given ver (ordered_diff d) =
      if_cases (λ (r : Round). IsThrown r.2) (is_id d.transaction_id)
        (λ _. continue_pieces-IsThrown d d.new_segs_left)
        (λ _. start_ordered_diff_upload-IsThrown given ver d)

-- A failure of a task whose object's status holds the upload.
abbrev IsGivenUpAs : ObjStatusInfo → UploadTask × Outcome StatusError Bool → Type 0
IsGivenUpAs after (t, outcome) =
    (outcome ≡ ok true)
    × (t.info.need_upload ≡ none)
    × (t.completion ≡ rejected)
    × (t.obj_status.status ≡ after)

abbrev pub IsGivenUp : ObjStatusInfo → UploadTask × Outcome StatusError Bool → Type 0
IsGivenUp before r = IsGivenUpAs (record before { upload = none }) r

cancellation-eq :
    (t : UploadTask)
    → IsRecorded t
    → record_upload_cancellation t.obj_status t.info
      ≡ (save t.obj_status (record t.obj_status.status { upload = none }), ok tt)
unfolding record_upload_cancellation
cancellation-eq t recorded =
    rw (record_upload_cancellation, recorded) (rw (==_refl t.info.upload_version) refl)

share-status :
    (t : UploadTask) (need : Option NeedUpload)
    → IsRecorded t
    → record (with_need t need).obj_status.status { upload = none }
      ≡ record t.obj_status.status { upload = none }
unfolding with_need share
share-status t need recorded = rw (share, recorded) (rw (==_refl t.info.upload_version) refl)

fail-IsGivenUp :
    (t : UploadTask) (e : UploadError)
    → IsRecorded t
    → t.completion ≡ pending
    → IsGivenUp t.obj_status.status (fail t e)
unfolding fail save
fail-IsGivenUp t e recorded open_promise =
    let c = cancellation-eq (with_need t none) (share-IsRecorded t none recorded) in
    (
      ap (λ (r : ObjStatus × Outcome StatusError (Unit {0})). and_done true r.1) c,
      refl,
      rw open_promise refl,
      ap (λ (r : ObjStatus × Outcome StatusError (Unit {0})). r.0.status) c
          ∙ share-status t none recorded,
    )

on_error-fail : (t : UploadTask) (e : UploadError) → is_connect e ≡ false → on_error t e ≡ fail t e
unfolding on_error
on_error-fail t connect other = cc
on_error-fail t no_transaction other = refl
on_error-fail t assertion other = refl
on_error-fail t files other = refl
on_error-fail t (http b) other = refl
on_error-fail t (of_status e) other = refl

thrown-IsGivenUp :
    (t : UploadTask) (files_moved : Bool) (r : Outcome UploadError (Unit {0}))
    → IsThrown r
    → IsRecorded t
    → t.completion ≡ pending
    → IsGivenUp t.obj_status.status (after_round t files_moved r)
unfolding after_round
thrown-IsGivenUp t m (ok u) thrown recorded open_promise = absurd thrown
thrown-IsGivenUp t m (throws e) thrown recorded open_promise =
    rw (on_error-fail t e thrown) (fail-IsGivenUp t e recorded open_promise)

round-IsGivenUp :
    (t : UploadTask) (r : Round) (reply : Reply) (files_moved : Bool)
    → IsThrown r.2
    → IsRecorded t
    → t.completion ≡ pending
    → IsGivenUp t.obj_status.status
        (after_round (noted (with_need t r.1) r.0 reply) files_moved r.2)
unfolding with_need
round-IsGivenUp t (request, need, res) reply m thrown recorded open_promise =
    subst
      (λ (before : ObjStatusInfo).
        IsGivenUpAs before (after_round (noted (with_need t need) request reply) m res))
      (share-status t need recorded)
      (thrown-IsGivenUp (noted (with_need t need) request reply) m res thrown
        (share-IsRecorded t need recorded) open_promise)

-- A task under way, whose object's status holds its upload, with a request that the server refuses:
-- `process` returns true, nothing is needed any more, the promise is rejected, and the status is as
-- it was without the upload. This holds for whole and for diff uploads, at any request of them.
pub process_refused :
    (src : Source) (t : UploadTask) (unexpected_status files_moved : Bool) (need : NeedUpload)
    → t.info.need_upload ≡ some need
    → IsRecorded t
    → t.completion ≡ pending
    → IsGivenUp t.obj_status.status (process src t (refused unexpected_status) files_moved)
unfolding process process_needed
process_refused src t b m need e recorded open_promise =
    subst
      (λ (n : Option NeedUpload).
        IsGivenUp t.obj_status.status (process_needed src t (refused b) m n))
      (sym e)
      (round-IsGivenUp t (upload_round src t.upload_header t.info.upload_version need (refused b))
        (refused b) m (upload_round-IsThrown src b t.upload_header t.info.upload_version need)
        recorded open_promise)
