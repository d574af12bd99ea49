-- ===== src/UpSyncer/Ending.antt =====
-- How far each request brings a whole upload, of ts-code/core/storage/synced/upsyncer.ts.
use core_3nweb_client_lib.Base.{
  ℕ, ◌+◌, ◌-◌, ◌≤◌, ◌<◌, min, ◌≡◌, refl, arith, true, Option, none, some, List, ◌==◌, length, take,
  drop, ok, throws, Bool-cases, inl, inr, lt→ltb,
}
use core_3nweb_client_lib.StatusInfo.{
  WholeVerOrderedUpload, NeedUpload, ordered_whole, ordered_diff,
}
use core_3nweb_client_lib.UpSyncer.{
  Source, saved, disconnected, connect, is_id, Round, max_upload_chunk, max_first_segs, first_segs,
  when_saved, send_first_segs, start_ordered_upload, send_segs, continue_ordered_upload,
  upload_round,
}
use core_3nweb_client_lib.UpSyncer.Server.{Stored, IsSource}
use core_3nweb_client_lib.UpSyncer.Whole.{IsAt, checked_segs-read_at, max_upload_chunk_positive}

-- Less is left, or nothing.
abbrev pub IsShorter : WholeVerOrderedUpload → Option NeedUpload → Type 0
IsShorter w none = Unit
IsShorter w (some (ordered_whole w')) = w'.segs_left < w.segs_left
IsShorter w (some (ordered_diff d)) = ⊥

abbrev pub IsOnward : WholeVerOrderedUpload → Round → Type 0
IsOnward w r = (r.2 ≡ ok tt) × IsShorter w r.1

send_segs-IsOnward :
    (w : WholeVerOrderedUpload) (trans : Option (List ℕ)) (len : ℕ) (segs : List ℕ)
    → 0 < len
    → len ≤ w.segs_left
    → IsOnward w (send_segs w (saved trans) len segs)
unfolding send_segs when_saved
send_segs-IsOnward w trans len segs pos le = elim (Bool-cases (len == w.segs_left)) [
  | inl e ↦ rw e (refl, tt)
  | inr e ↦ rw e (refl, omega arith)
]

send_first_segs-IsOnward :
    (src : Source) (given : Option (List ℕ)) (ver : ℕ) (w : WholeVerOrderedUpload)
    (trans : Option (List ℕ)) (len : ℕ) (segs : List ℕ)
    → is_id trans ≡ true
    → 0 < len
    → len ≤ w.segs_left
    → IsOnward w (send_first_segs src given ver w (saved trans) len segs)
unfolding send_first_segs when_saved
send_first_segs-IsOnward src given ver w trans len segs id pos le =
    elim (Bool-cases (len == w.segs_left)) [
      | inl e ↦ rw e (refl, tt)
      | inr e ↦ rw e (rw id (refl, omega arith))
    ]

module _ (bytes : List ℕ) (src : Source) (reads : IsSource bytes src) where
  continue_ordered_upload-IsOnward :
      (w : WholeVerOrderedUpload) (trans : Option (List ℕ))
      → w.segs_ofs + w.segs_left ≡ length bytes
      → 0 < w.segs_left
      → IsOnward w (continue_ordered_upload src w (saved trans))
  unfolding continue_ordered_upload
  continue_ordered_upload-IsOnward w trans sum pos =
      let len = min w.segs_left (max_upload_chunk src) in
      rw
        (continue_ordered_upload, checked_segs-read_at bytes src w.segs_ofs len reads (omega arith))
        (send_segs-IsOnward w trans len (take len (drop w.segs_ofs bytes))
          (omega (arith, max_upload_chunk_positive src)) (omega arith))

  first_segs_read :
      (w : WholeVerOrderedUpload) (h : ℕ)
      → w.header ≡ some h
      → h + 1 < max_upload_chunk src
      → w.segs_ofs + w.segs_left ≡ length bytes
      → 0 < w.segs_left
      → (len : ℕ) × (0 < len)
        × (len ≤ w.segs_left)
        × (first_segs src w ≡ ok (len, take len (drop w.segs_ofs bytes)))
  unfolding first_segs max_first_segs
  first_segs_read w h e fits sum pos =
      let m = max_upload_chunk src - h - 0 in
      let len = min w.segs_left m in
      (
        len,
        omega arith,
        omega arith,
        rw e (
            rw (lt→ltb 1 m (omega arith)) (
              rw (lt→ltb 0 len (omega arith))
                (rw (checked_segs-read_at bytes src w.segs_ofs len reads (omega arith)) refl))),
      )

  start_ordered_upload-IsOnward :
      (given : Option (List ℕ)) (ver : ℕ) (w : WholeVerOrderedUpload) (trans : Option (List ℕ))
      (h : ℕ)
      → w.header ≡ some h
      → h + 1 < max_upload_chunk src
      → w.segs_ofs + w.segs_left ≡ length bytes
      → 0 < w.segs_left
      → is_id trans ≡ true
      → IsOnward w (start_ordered_upload src given ver w (saved trans))
  unfolding start_ordered_upload
  start_ordered_upload-IsOnward given ver w trans h e fits sum pos id =
      let r = first_segs_read w h e fits sum pos in
      rw (start_ordered_upload, r.3)
        (send_first_segs-IsOnward src given ver w trans r.0 (take r.0 (drop w.segs_ofs bytes)) id
          r.1 r.2)

  -- A request of an upload that is under way, which the server saves.
  pub upload_round-IsOnward :
      (given : Option (List ℕ)) (ver sent_as : ℕ) (header : List ℕ) (w : WholeVerOrderedUpload)
      (trans : Option (List ℕ)) (s : Option Stored)
      → IsAt ver header bytes w s
      → length header + 1 < max_upload_chunk src
      → 0 < length bytes
      → is_id trans ≡ true
      → IsOnward w (upload_round src given sent_as (ordered_whole w) (saved trans))
  unfolding upload_round
  upload_round-IsOnward given ver sent_as header w trans s here fits some_bytes id =
      elim (Bool-cases (is_id w.transaction_id)) [
        | inl e ↦ rw e (continue_ordered_upload-IsOnward w trans here.0 (rw e at here.1).0)
        | inr e ↦ rw e (
            start_ordered_upload-IsOnward given sent_as w trans (length header) (rw e at here.1).1
              fits here.0 (omega (arith, (rw e at here.1).0)) id)
      ]

  -- A request that is lost.
  pub upload_round-disconnected :
      (given : Option (List ℕ)) (ver sent_as : ℕ) (header : List ℕ) (w : WholeVerOrderedUpload)
      (s : Option Stored)
      → IsAt ver header bytes w s
      → length header + 1 < max_upload_chunk src
      → 0 < length bytes
      → let r = upload_round src given sent_as (ordered_whole w) disconnected in
        (r.2 ≡ throws connect) × (r.1 ≡ some (ordered_whole w))
  unfolding upload_round send_segs send_first_segs when_saved continue_ordered_upload
      start_ordered_upload
  upload_round-disconnected given ver sent_as header w s here fits some_bytes =
      elim (Bool-cases (is_id w.transaction_id)) [
        | inl e ↦ rw e (
            let len = min w.segs_left (max_upload_chunk src) in
            rw
              (
                continue_ordered_upload,
                checked_segs-read_at bytes src w.segs_ofs len reads (omega (arith, here.0)),
              )
              (refl, refl))
        | inr e ↦ rw e (
            let r =
              first_segs_read w (length header) (rw e at here.1).1 fits here.0
                (omega (arith, here.0, (rw e at here.1).0)) in
            rw (start_ordered_upload, r.3) (refl, refl))
      ]
