-- ===== src/UpSyncer/Bounds.antt =====
-- The size of the requests of ts-code/core/storage/synced/upsyncer.ts.
use core_3nweb_client_lib.Base.{
  ℕ, ◌+◌, ◌-◌, ◌≤◌, min, ◌≡◌, refl, arith, Bool, true, false, Option, none, some, List, [], ◌∷◌,
  ltb, ◌==◌, if◌then◌else◌, length, Outcome, ok, throws, Outcome-cases, Bool-cases, inl, inr,
  >>=-eq-ok, ok_injective, if_cases,
}
use core_3nweb_client_lib.StatusInfo.{
  WholeVerOrderedUpload, DiffVerOrderedUpload, NeedUpload, ordered_whole, ordered_diff,
  transaction_of,
}
use core_3nweb_client_lib.UpSyncer.{
  Source, Request, first, follow, Reply, UploadError, answer, is_id, Round, max_upload_chunk,
  header_to_upload, checked_segs, max_first_segs, first_segs, when_saved, started, send_first_segs,
  start_ordered_upload, start_ordered_diff_upload, send_segs, continue_ordered_upload, with_rest,
  send_piece, continue_pieces, continue_ordered_diff_upload, upload_round,
}
use core_3nweb_client_lib.UpSyncer.Server.{bytes_or_none}

abbrev pub request_size : Request → ℕ
request_size (first ver last header diff segs) =
    length header + length (bytes_or_none diff) + length (bytes_or_none segs)
request_size (follow trans ofs last segs) = length segs

abbrev pub IsWithin : ℕ → Option Request → Type 0
IsWithin n none = Unit
IsWithin n (some request) = request_size request ≤ n

abbrev pub header_in : NeedUpload → Option ℕ
header_in (ordered_whole w) = w.header
header_in (ordered_diff d) = d.header

-- Whatever the reply, the request is the one that was made.
when_saved-request :
    (request : Request) (need : NeedUpload) (m : Outcome UploadError (Option (List ℕ)))
    (next : Option (List ℕ) → Round) (n : ℕ)
    → request_size request ≤ n
    → ((trans : Option (List ℕ)) → (next trans).0 ≡ some request)
    → IsWithin n (when_saved request need m next).0
unfolding when_saved
when_saved-request request need (throws e) next n le same = le
when_saved-request request need (ok trans) next n le same = rw (same trans) le

branch-request :
    (request : Request) (b : Bool) (x y : Round)
    → x.0 ≡ some request
    → y.0 ≡ some request
    → (if b then x else y).0 ≡ some request
branch-request request true x y hx hy = hx
branch-request request false x y hx hy = hy

started-request :
    (request : Request) (failed next : NeedUpload) (trans : Option (List ℕ))
    → (started request failed next trans).0 ≡ some request
started-request request failed next trans = branch-request request (is_id trans) _ _ refl refl

checked_segs-length :
    (o : Option (List ℕ)) (n : ℕ) (segs : List ℕ) → checked_segs o n ≡ ok segs → length segs ≡ n
unfolding checked_segs
checked_segs-length none n segs e = cc
checked_segs-length (some read) n segs e = elim (Bool-cases (length read == n)) [
  | inl same ↦ ground (arith, same, ok_injective (rw same at e))
  | inr other ↦ cc (rw other at e)
]

max_first_segs-le :
    (src : Source) (header_len diff_len m : ℕ)
    → max_first_segs src (some header_len) diff_len ≡ ok m
    → header_len + diff_len + m ≤ max_upload_chunk src
unfolding max_first_segs
max_first_segs-le src h d m e = elim (Bool-cases (ltb 1 (max_upload_chunk src - h - d))) [
  | inl big ↦ ground (arith, big, ok_injective (rw big at e))
  | inr small ↦ cc (rw small at e)
]

first_segs-le :
    (src : Source) (w : WholeVerOrderedUpload) (header_len : ℕ) (r : ℕ × List ℕ)
    → w.header ≡ some header_len
    → first_segs src w ≡ ok r
    → header_len + length r.1 ≤ max_upload_chunk src
unfolding first_segs
first_segs-le src w h r known e =
    let (m, e1, e2) = >>=-eq-ok (max_first_segs src w.header 0) _ e in
    let len = min w.segs_left m in
    let (segs, e3, e4) =
      >>=-eq-ok (checked_segs (if ltb 0 len then src.read_at w.segs_ofs len else none) len) _ e2 in
    let below = max_first_segs-le src h 0 m (rw known at e1) in
    let long = checked_segs-length _ len segs e3 in
    rw (← ok_injective e4) (omega (arith, below, long))

module _ (src : Source) where
  send_first_segs-IsWithin :
      (given : Option (List ℕ)) (ver : ℕ) (w : WholeVerOrderedUpload) (reply : Reply) (len : ℕ)
      (segs : List ℕ)
      → length (header_to_upload src given) + length segs ≤ max_upload_chunk src
      → IsWithin (max_upload_chunk src) (send_first_segs src given ver w reply len segs).0
  unfolding send_first_segs
  send_first_segs-IsWithin given ver w reply len segs le =
      when_saved-request
        (first ver (len == w.segs_left) (header_to_upload src given) none (some segs)) _
        (answer reply) _ (max_upload_chunk src) (omega (arith, le))
        (λ trans. branch-request _ (len == w.segs_left) _ _ refl (started-request _ _ _ trans))

  start_ordered_upload-IsWithin :
      (given : Option (List ℕ)) (ver : ℕ) (w : WholeVerOrderedUpload) (reply : Reply)
      → w.header ≡ some (length (header_to_upload src given))
      → IsWithin (max_upload_chunk src) (start_ordered_upload src given ver w reply).0
  unfolding start_ordered_upload
  start_ordered_upload-IsWithin given ver w reply known = elim (Outcome-cases (first_segs src w)) [
    | inl r ↦
        rw (start_ordered_upload, r.1)
          (send_first_segs-IsWithin given ver w reply r.0.0 r.0.1
            (first_segs-le src w (length (header_to_upload src given)) r.0 known r.1))
    | inr e ↦ rw (start_ordered_upload, e.1) tt
  ]

  start_ordered_diff_upload-IsWithin :
      (given : Option (List ℕ)) (ver : ℕ) (d : DiffVerOrderedUpload) (reply : Reply)
      → d.header ≡ some (length (header_to_upload src given))
      → IsWithin (max_upload_chunk src) (start_ordered_diff_upload src given ver d reply).0
  unfolding start_ordered_diff_upload
  start_ordered_diff_upload-IsWithin given ver d reply known =
      elim (Outcome-cases (max_first_segs src d.header (length (src.diff_bytes d.diff)))) [
        | inl m ↦
            rw (start_ordered_diff_upload, m.1)
              (when_saved-request
                (first ver (length d.new_segs_left == 0) (header_to_upload src given)
                  (some (src.diff_bytes d.diff)) none)
                _ (answer reply) _ (max_upload_chunk src)
                (omega (
                  arith,
                  max_first_segs-le src (length (header_to_upload src given))
                      (length (src.diff_bytes d.diff)) m.0 (rw known at m.1),
                ))
                (λ trans.
                  branch-request _ (length d.new_segs_left == 0) _ _ refl
                    (started-request _ _ _ trans)))
        | inr e ↦ rw (start_ordered_diff_upload, e.1) tt
      ]

  continue_ordered_upload-IsWithin :
      (w : WholeVerOrderedUpload) (reply : Reply)
      → IsWithin (max_upload_chunk src) (continue_ordered_upload src w reply).0
  unfolding continue_ordered_upload send_segs
  continue_ordered_upload-IsWithin w reply =
      let len = min w.segs_left (max_upload_chunk src) in
      elim (Outcome-cases (checked_segs (src.read_at w.segs_ofs len) len)) [
        | inl s ↦
            rw (continue_ordered_upload, s.1)
              (when_saved-request (follow w.transaction_id w.segs_ofs (len == w.segs_left) s.0) _
                (answer reply) _ (max_upload_chunk src)
                (omega (arith, checked_segs-length _ len s.0 s.1))
                (λ _. branch-request _ (len == w.segs_left) _ _ refl refl))
        | inr e ↦ rw (continue_ordered_upload, e.1) tt
      ]

  continue_pieces-IsWithin :
      (d : DiffVerOrderedUpload) (reply : Reply) (pieces : List (ℕ × ℕ))
      → IsWithin (max_upload_chunk src) (continue_pieces src d reply pieces).0
  unfolding continue_pieces send_piece
  continue_pieces-IsWithin d reply [] = tt
  continue_pieces-IsWithin d reply ((ofs, piece_len) ∷ rest) =
      let len = min (max_upload_chunk src) piece_len in
      let rest' = with_rest ofs piece_len len rest in
      let request = λ (segs : List ℕ). follow d.transaction_id ofs (length rest' == 0) segs in
      elim (Outcome-cases (checked_segs (src.read_at ofs len) len)) [
        | inl s ↦
            rw (continue_pieces, s.1)
              (when_saved-request (request s.0) _ (answer reply) _ (max_upload_chunk src)
                (omega (arith, checked_segs-length _ len s.0 s.1))
                (λ _. branch-request _ (length rest' == 0) _ _ refl refl))
        | inr e ↦ rw (continue_pieces, e.1) tt
      ]

  -- Whatever an upload needs and whatever the reply, the bytes of a request, its header and its diff
  -- included, are never more than `maxUploadChunk()`. An upload that has no transaction yet is to
  -- have the length of its header.
  pub upload_round-IsWithin :
      (given : Option (List ℕ)) (ver : ℕ) (need : NeedUpload) (reply : Reply)
      → (is_id (transaction_of need) ≡ false
          → header_in need ≡ some (length (header_to_upload src given)))
      → IsWithin (max_upload_chunk src) (upload_round src given ver need reply).0
  unfolding upload_round continue_ordered_diff_upload transaction_of
  upload_round-IsWithin given ver (ordered_whole w) reply known =
      if_cases (λ (r : Round). IsWithin (max_upload_chunk src) r.0) (is_id w.transaction_id)
        (λ _. continue_ordered_upload-IsWithin w reply)
        (λ e. start_ordered_upload-IsWithin given ver w reply (known e))
  upload_round-IsWithin given ver (ordered_diff d) reply known =
      if_cases (λ (r : Round). IsWithin (max_upload_chunk src) r.0) (is_id d.transaction_id)
        (λ _. continue_pieces-IsWithin d reply d.new_segs_left)
        (λ e. start_ordered_diff_upload-IsWithin given ver d reply (known e))
