-- ===== src/UpSyncer.antt =====
-- One request of an upload task, of ts-code/core/storage/synced/upsyncer.ts. A routine gives the
-- request that it makes, `needUpload` after it, and what it throws, for one reply of the server.
-- Reading the object's files and the limit that the server sets are the record `Source`.
pub mod Task
pub mod Server
pub mod Whole
pub mod Progress
pub mod Ending
pub mod Delivery
pub mod Upload
pub mod Bounds
pub mod Pieces
pub mod Refusal
pub mod Syncer
mod Runs
use core_3nweb_client_lib.Base.{
  ℕ, zero, suc, ◌+◌, ◌-◌, ◌*◌, min, Bool, true, false, Option, none, some, List, [], ◌∷◌, ltb, leb,
  ◌==◌, truthy, if◌then◌else◌, Outcome, ok, throws, ◌>>=◌, length,
}
use core_3nweb_client_lib.ObjLayout.Params.{DiffInfo}
use core_3nweb_client_lib.StatusInfo.{
  WholeVerOrderedUpload, DiffVerOrderedUpload, NeedUpload, ordered_whole, ordered_diff, add_lens,
  header_bytes_of, StatusError,
}

abbrev pub default_max_chunk_size : ℕ
default_max_chunk_size = 512 * 1024

abbrev pub max_fast_upload : ℕ
max_fast_upload = 2 * 1024 * 1024

pub data UploadExecLabel : Type 0 where
  long fast : UploadExecLabel

-- What `ObjSource`, `JSON.stringify` with `utf8.pack`, and the session with the server give.
pub record Source : Type 0 where
  pub max_chunk_size : Option ℕ
  pub read_header : List ℕ
  pub segs_size : ℕ
  pub read_at : ℕ → ℕ → Option (List ℕ)
  pub diff_bytes : DiffInfo → List ℕ

-- The requests of `saveNewObjVersion`, first and following ones.
pub data Request : Type 0 where
  first : (ver : ℕ) (last : Bool) (header : List ℕ) (diff segs : Option (List ℕ)) → Request
  follow : (trans : Option (List ℕ)) (ofs : ℕ) (last : Bool) (segs : List ℕ) → Request

-- How the server answers: with an id of a transaction or without it, not at all, or with an error,
-- which either has an unexpected status or not.
pub data Reply : Type 0 where
  saved : Option (List ℕ) → Reply
  disconnected : Reply
  refused : Bool → Reply

pub data UploadError : Type 0 where
  connect no_transaction assertion files : UploadError
  http : Bool → UploadError
  of_status : StatusError → UploadError

abbrev pub answer : Reply → Outcome UploadError (Option (List ℕ))
answer (saved trans) = ok trans
answer disconnected = throws connect
answer (refused unexpected) = throws (http unexpected)

-- An id of a transaction as a condition: `undefined` and the empty text are falsy.
abbrev pub is_id : Option (List ℕ) → Bool
is_id none = false
is_id (some []) = false
is_id (some (c ∷ cs)) = true

abbrev pub Round : Type 0
Round = Option Request × Option NeedUpload × Outcome UploadError (Unit {0})

pub max_upload_chunk : Source → ℕ
max_upload_chunk src = elim src.max_chunk_size [
  | none ↦ default_max_chunk_size
  | some n ↦ if n == 0 then default_max_chunk_size else n
]

pub header_to_upload : Source → Option (List ℕ) → List ℕ
header_to_upload src none = src.read_header
header_to_upload src (some header) = header

abbrev pub expected_header_len : Source → Option (List ℕ) → ℕ
unfolding header_to_upload
expected_header_len src header = length (header_to_upload src header)

pub whole_ver_upload : Source → Option (List ℕ) → Bool → WholeVerOrderedUpload
whole_ver_upload src header create_obj = record {
  create_obj = create_obj;
  header = some (expected_header_len src header);
  segs_ofs = 0;
  segs_left = src.segs_size;
  transaction_id = none;
}

pub diff_ver_upload : Source → Option (List ℕ) → DiffInfo → List (ℕ × ℕ) → DiffVerOrderedUpload
diff_ver_upload src header diff new_segs_pack_order = record {
  diff = diff;
  new_segs_left = new_segs_pack_order;
  header = some (expected_header_len src header);
  transaction_id = none;
}

-- `header!` is a number in every upload that is not started.
pub upload_size : NeedUpload → ℕ
unfolding add_lens
upload_size (ordered_whole w) = header_bytes_of w.header + w.segs_left
upload_size (ordered_diff d) = add_lens (header_bytes_of d.header) d.new_segs_left

pub executor_label_for : NeedUpload → UploadExecLabel
unfolding upload_size
executor_label_for need = if leb (upload_size need) max_fast_upload then fast else long

-- `assert(!!segs && (segs.length === len))`
pub checked_segs : Option (List ℕ) → ℕ → Outcome UploadError (List ℕ)
checked_segs none len = throws assertion
checked_segs (some segs) len = if length segs == len then ok segs else throws assertion

-- What `maxUploadChunk()` leaves beside the header and the diff. An undefined header makes it NaN,
-- and then, as when it is not above 1, the assertion throws.
pub max_first_segs : Source → Option ℕ → ℕ → Outcome UploadError ℕ
unfolding max_upload_chunk
max_first_segs src none diff_len = throws assertion
max_first_segs src (some header_len) diff_len =
    let max_segs = max_upload_chunk src - header_len - diff_len in
    if ltb 1 max_segs then ok max_segs else throws assertion

-- The segments of the first request. Nothing is read when there are none.
pub first_segs : Source → WholeVerOrderedUpload → Outcome UploadError (ℕ × List ℕ)
unfolding max_first_segs checked_segs
first_segs src w = max_first_segs src w.header 0 >>= λ max_segs.
    let len = min w.segs_left max_segs in
    checked_segs (if ltb 0 len then src.read_at w.segs_ofs len else none) len >>= λ segs.
    ok (len, segs)

-- After the request that starts a transaction.
abbrev pub started : Request → NeedUpload → NeedUpload → Option (List ℕ) → Round
started request failed next trans =
    if is_id trans
    then (some request, some next, ok tt)
    else (some request, some failed, throws no_transaction)

-- After any request: what it leaves when it is not saved, and what follows when it is.
pub when_saved :
    Request → NeedUpload → Outcome UploadError (Option (List ℕ)) → (Option (List ℕ) → Round) → Round
when_saved request need (throws e) next = (some request, some need, throws e)
when_saved request need (ok trans) next = next trans

pub send_first_segs :
    Source → Option (List ℕ) → ℕ → WholeVerOrderedUpload → Reply → ℕ → List ℕ → Round
unfolding when_saved header_to_upload
send_first_segs src header ver w reply len segs =
    let last = len == w.segs_left in
    let request = first ver last (header_to_upload src header) none (some segs) in
    when_saved request (ordered_whole w) (answer reply) (λ trans.
      if last
      then (some request, none, ok tt)
      else started request (ordered_whole (record w { transaction_id = trans }))
          (ordered_whole (record w {
            transaction_id = trans;
            header = none;
            segs_ofs = w.segs_ofs + len;
            segs_left = w.segs_left - len;
          }))
          trans)

pub start_ordered_upload : Source → Option (List ℕ) → ℕ → WholeVerOrderedUpload → Reply → Round
unfolding first_segs send_first_segs
start_ordered_upload src header ver w reply = elim (first_segs src w) [
  | throws e ↦ (none, some (ordered_whole w), throws e)
  | ok r ↦ send_first_segs src header ver w reply r.0 r.1
]

pub start_ordered_diff_upload : Source → Option (List ℕ) → ℕ → DiffVerOrderedUpload → Reply → Round
unfolding max_first_segs when_saved header_to_upload
start_ordered_diff_upload src header ver d reply =
    let diff = src.diff_bytes d.diff in
    let last = length d.new_segs_left == 0 in
    let request = first ver last (header_to_upload src header) (some diff) none in
    elim (max_first_segs src d.header (length diff)) [
      | throws e ↦ (none, some (ordered_diff d), throws e)
      | ok max_segs ↦ when_saved request (ordered_diff d) (answer reply) (λ trans.
          if last
          then (some request, none, ok tt)
          else started request (ordered_diff (record d { transaction_id = trans }))
              (ordered_diff (record d { transaction_id = trans; header = none })) trans)
    ]

pub send_segs : WholeVerOrderedUpload → Reply → ℕ → List ℕ → Round
unfolding when_saved
send_segs w reply len segs =
    let last = len == w.segs_left in
    let request = follow w.transaction_id w.segs_ofs last segs in
    when_saved request (ordered_whole w) (answer reply) (λ _.
      if last then (some request, none, ok tt) else (
        some request,
        some (
            ordered_whole
              (record w { segs_ofs = w.segs_ofs + len; segs_left = w.segs_left - len })),
        ok tt,
      ))

pub continue_ordered_upload : Source → WholeVerOrderedUpload → Reply → Round
unfolding checked_segs max_upload_chunk send_segs
continue_ordered_upload src w reply =
    let len = min w.segs_left (max_upload_chunk src) in
    elim (checked_segs (src.read_at w.segs_ofs len) len) [
      | throws e ↦ (none, some (ordered_whole w), throws e)
      | ok segs ↦ send_segs w reply len segs
    ]

-- `newSegsLeft.splice(1, 0, ...)` when a piece at offset `ofs` is longer than what is sent of it:
-- the rest of the piece is put behind it, and the piece itself stays as it was.
pub with_rest : ℕ → ℕ → ℕ → List (ℕ × ℕ) → List (ℕ × ℕ)
with_rest ofs piece_len len rest =
    if ltb len piece_len then (ofs + len, piece_len - len) ∷ rest else rest

pub send_piece : DiffVerOrderedUpload → Reply → ℕ → List ℕ → List (ℕ × ℕ) → Round
unfolding when_saved
send_piece d reply ofs segs rest =
    let last = length rest == 0 in
    let request = follow d.transaction_id ofs last segs in
    when_saved request (ordered_diff d) (answer reply) (λ _.
      if last
      then (some request, none, ok tt)
      else (some request, some (ordered_diff (record d { new_segs_left = rest })), ok tt))

pub continue_pieces : Source → DiffVerOrderedUpload → Reply → List (ℕ × ℕ) → Round
unfolding checked_segs max_upload_chunk with_rest send_piece
continue_pieces src d reply [] = (none, some (ordered_diff d), throws assertion)
continue_pieces src d reply ((ofs, piece_len) ∷ rest) =
    let len = min (max_upload_chunk src) piece_len in
    let rest' = with_rest ofs piece_len len rest in
    elim (checked_segs (src.read_at ofs len) len) [
      | throws e ↦ (none, some (ordered_diff d), throws e)
      | ok segs ↦
          send_piece (record d { new_segs_left = (ofs, piece_len) ∷ rest' }) reply ofs segs rest'
    ]

pub continue_ordered_diff_upload : Source → DiffVerOrderedUpload → Reply → Round
unfolding continue_pieces
continue_ordered_diff_upload src d reply = continue_pieces src d reply d.new_segs_left

-- What `process` chooses of these.
pub upload_round : Source → Option (List ℕ) → ℕ → NeedUpload → Reply → Round
unfolding start_ordered_upload start_ordered_diff_upload continue_ordered_upload
    continue_ordered_diff_upload
upload_round src header ver (ordered_diff d) reply =
    if is_id d.transaction_id
    then continue_ordered_diff_upload src d reply
    else start_ordered_diff_upload src header ver d reply
upload_round src header ver (ordered_whole w) reply =
    if is_id w.transaction_id
    then continue_ordered_upload src w reply
    else start_ordered_upload src header ver w reply
