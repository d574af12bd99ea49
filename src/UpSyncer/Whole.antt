-- ===== src/UpSyncer/Whole.antt =====
-- Requests of a whole upload, of ts-code/core/storage/synced/upsyncer.ts, against a server that
-- only ever appends segments.
use core_3nweb_client_lib.Base.{
  ℕ, ◌+◌, ◌-◌, ◌≤◌, ◌<◌, min, ◌≡◌, refl, ap, arith, Bool, true, false, Option, none, some, List,
  ltb, ◌==◌, if◌then◌else◌, length, take, drop, Outcome, ok, throws, Bool-cases, ◌⊎◌, inl, inr, ◌∙◌,
  ==_refl, take_all,
}
use core_3nweb_client_lib.StatusInfo.{
  WholeVerOrderedUpload, NeedUpload, ordered_whole, ordered_diff,
}
use core_3nweb_client_lib.UpSyncer.{
  Source, Request, follow, Reply, saved, disconnected, refused, UploadError, connect, assertion,
  is_id, Round, max_upload_chunk, header_to_upload, checked_segs, max_first_segs, first_segs,
  when_saved, send_first_segs, start_ordered_upload, send_segs, continue_ordered_upload,
  upload_round,
}
use core_3nweb_client_lib.UpSyncer.Server.{
  Stored, nothing, held, accept, answered, IsSource, take_add, length-take_within,
  length-take_from_start,
}

-- What is on the server of a version with this number, header and segments.
abbrev pub held_of : ℕ → List ℕ → List ℕ → Bool → Option Stored
held_of ver header segs is_whole =
    some
      (held (record { ver = ver; header = header; diff = none; segs = segs; is_whole = is_whole }))

-- Before a transaction nothing is sent, and then what precedes the offset is on the server.
abbrev pub IsAt : ℕ → List ℕ → List ℕ → WholeVerOrderedUpload → Option Stored → Type 0
IsAt ver header bytes w s =
    (w.segs_ofs + w.segs_left ≡ length bytes)
    × (if is_id w.transaction_id
        then (0 < w.segs_left) × (s ≡ held_of ver header (take w.segs_ofs bytes) false)
        else (w.segs_ofs ≡ 0) × (w.header ≡ some (length header)) × (s ≡ some nothing))

abbrev pub IsNeedAt : ℕ → List ℕ → List ℕ → NeedUpload → Option Stored → Type 0
IsNeedAt ver header bytes (ordered_whole w) s = IsAt ver header bytes w s
IsNeedAt ver header bytes (ordered_diff d) s = ⊥

abbrev pub IsAccepted : Option Stored → Type 0
IsAccepted s = (x : Stored) × (s ≡ some x)

-- What a request leaves behind: the whole version on the server when nothing is needed any more,
-- and else a step that the next request goes on from.
abbrev pub IsRoundAt :
    ℕ
    → List ℕ
    → List ℕ
    → Outcome UploadError (Unit {0})
    → Option NeedUpload
    → Option Stored
    → Type 0
IsRoundAt ver header bytes (ok _) none s = s ≡ held_of ver header bytes true
IsRoundAt ver header bytes (ok _) (some need) s = IsNeedAt ver header bytes need s
IsRoundAt ver header bytes (throws connect) none s = ⊥
IsRoundAt ver header bytes (throws connect) (some need) s = IsNeedAt ver header bytes need s
IsRoundAt ver header bytes (throws _) need s = IsAccepted s

unfoldable pub request_answered : Option Request → Reply → Option Stored → Option Stored
unfolding answered
request_answered none reply s = s
request_answered (some request) reply s = answered request reply s

unfoldable pub IsRound : ℕ → List ℕ → List ℕ → Round → Reply → Option Stored → Type 0
unfolding request_answered
IsRound ver header bytes r reply s =
    IsRoundAt ver header bytes r.2 r.1 (request_answered r.0 reply s)

pub max_upload_chunk_positive : (src : Source) → 0 < max_upload_chunk src
unfolding max_upload_chunk
max_upload_chunk_positive src = ground arith

-- Segments in range are read, and pass the assertion.
pub checked_segs-read_at :
    (bytes : List ℕ) (src : Source) (ofs len : ℕ)
    → IsSource bytes src
    → ofs + len ≤ length bytes
    → checked_segs (src.read_at ofs len) len ≡ ok (take len (drop ofs bytes))
unfolding checked_segs IsSource
checked_segs-read_at bytes src ofs len reads within =
    rw (reads.1 ofs len within)
      (rw (length-take_within ofs len bytes within) (rw (==_refl len) refl))

module _ (ver : ℕ) (header bytes : List ℕ) where
  -- Segments that follow on the ones that the server has.
  answered-follow :
      (trans t : Option (List ℕ)) (ofs len : ℕ) (last : Bool) (s : Option Stored)
      → ofs + len ≤ length bytes
      → s ≡ held_of ver header (take ofs bytes) false
      → answered (follow trans ofs last (take len (drop ofs bytes))) (saved t) s
        ≡ held_of ver header (take (ofs + len) bytes) last
  unfolding answered accept
  answered-follow trans t ofs len last s within on_server = rw on_server (
      rw (length-take_from_start ofs bytes (omega arith))
        (rw (==_refl ofs) (rw (take_add ofs len bytes) refl)))

  -- A following request, whatever the reply.
  send_segs-IsRound :
      (w : WholeVerOrderedUpload) (reply : Reply) (len : ℕ) (s : Option Stored)
      → is_id w.transaction_id ≡ true
      → 0 < len
      → len ≤ w.segs_left
      → w.segs_ofs + w.segs_left ≡ length bytes
      → s ≡ held_of ver header (take w.segs_ofs bytes) false
      → IsRound ver header bytes (send_segs w reply len (take len (drop w.segs_ofs bytes))) reply s
  unfolding IsRound send_segs when_saved answered
  send_segs-IsRound w (saved trans) len s id pos le sum on_server =
      elim (Bool-cases (len == w.segs_left)) [
        | inl e ↦ rw e (
            answered-follow w.transaction_id trans w.segs_ofs len true s (omega arith) on_server
            ∙ ap (λ (t : List ℕ). held_of ver header t true)
                (take_all (w.segs_ofs + len) bytes (ground (arith, e))))
        | inr e ↦ rw e (
          ground arith,
          rw id (
            ground (arith, e),
            answered-follow w.transaction_id trans w.segs_ofs len false s (omega arith) on_server,
          ),
        )
      ]
  send_segs-IsRound w disconnected len s id pos le sum on_server =
      (sum, rw id (omega arith, on_server))
  send_segs-IsRound w (refused b) len s id pos le sum on_server = (_, on_server)

  max_first_segs-cases :
      (src : Source) (h : Option ℕ) (n : ℕ)
      → (max_first_segs src h n ≡ throws assertion)
        ⊎ ((m : ℕ) × (0 < m) × (max_first_segs src h n ≡ ok m))
  unfolding max_first_segs
  max_first_segs-cases src none n = inl refl
  max_first_segs-cases src (some h) n = elim (Bool-cases (ltb 1 (max_upload_chunk src - h - n))) [
    | inl e ↦ inr (max_upload_chunk src - h - n, ground (arith, e), rw e refl)
    | inr e ↦ inl (rw e refl)
  ]

  -- What the first request reads, unless an assertion fails.
  first_segs-cases :
      (src : Source) (w : WholeVerOrderedUpload)
      → IsSource bytes src
      → w.segs_ofs + w.segs_left ≡ length bytes
      → (first_segs src w ≡ throws assertion)
        ⊎ ((len : ℕ) × (0 < len)
            × (len ≤ w.segs_left)
            × (first_segs src w ≡ ok (len, take len (drop w.segs_ofs bytes))))
  unfolding first_segs
  first_segs-cases src w reads sum = elim (max_first_segs-cases src w.header 0) [
    | inl e ↦ inl (rw e refl)
    | inr r ↦ elim (Bool-cases (ltb 0 (min w.segs_left r.0))) [
      | inl e ↦ inr (
        min w.segs_left r.0,
        ground (arith, e),
        omega arith,
        rw r.2 (
            rw e (
              rw
                (checked_segs-read_at bytes src w.segs_ofs (min w.segs_left r.0) reads
                  (omega arith))
                refl)),
      )
      | inr e ↦ inl (rw r.2 (rw e refl))
    ]
  ]

  from_start : (ofs len : ℕ) → ofs ≡ 0 → take len (drop ofs bytes) ≡ take (ofs + len) bytes
  from_start ofs len e = rw e (ap (λ (t : ℕ). take t bytes) (omega arith))

  send_first_segs-IsRound :
      (src : Source) (given : Option (List ℕ)) (w : WholeVerOrderedUpload) (reply : Reply) (len : ℕ)
      → is_id w.transaction_id ≡ false
      → header_to_upload src given ≡ header
      → 0 < len
      → len ≤ w.segs_left
      → w.segs_ofs ≡ 0
      → w.header ≡ some (length header)
      → w.segs_ofs + w.segs_left ≡ length bytes
      → IsRound ver header bytes
          (send_first_segs src given ver w reply len (take len (drop w.segs_ofs bytes)))
          reply
          (some nothing)
  unfolding IsRound send_first_segs when_saved answered accept
  send_first_segs-IsRound src given w (saved trans) len no_id head pos le zero_ofs h sum =
      elim (Bool-cases (len == w.segs_left)) [
        | inl e ↦ rw e (
            rw head (
              ap (λ (t : List ℕ). held_of ver header t true)
                (from_start w.segs_ofs len zero_ofs
                  ∙ take_all (w.segs_ofs + len) bytes (ground (arith, e)))))
        | inr e ↦ rw e (elim (Bool-cases (is_id trans)) [
          | inl id ↦ rw id (
            ground arith,
            rw id (
              ground (arith, e),
              rw head (
                  ap (λ (t : List ℕ). held_of ver header t false)
                    (from_start w.segs_ofs len zero_ofs)),
            ),
          )
          | inr id ↦ rw id (_, refl)
        ])
      ]
  send_first_segs-IsRound src given w disconnected len no_id head pos le zero_ofs h sum =
      (sum, rw no_id (zero_ofs, h, refl))
  send_first_segs-IsRound src given w (refused b) len no_id head pos le zero_ofs h sum = (_, refl)

  continue_ordered_upload-IsRound :
      (src : Source) (w : WholeVerOrderedUpload) (reply : Reply) (s : Option Stored)
      → IsSource bytes src
      → is_id w.transaction_id ≡ true
      → w.segs_ofs + w.segs_left ≡ length bytes
      → (0 < w.segs_left) × (s ≡ held_of ver header (take w.segs_ofs bytes) false)
      → IsRound ver header bytes (continue_ordered_upload src w reply) reply s
  unfolding continue_ordered_upload
  continue_ordered_upload-IsRound src w reply s reads id sum here =
      let len = min w.segs_left (max_upload_chunk src) in
      rw
        (continue_ordered_upload, checked_segs-read_at bytes src w.segs_ofs len reads (omega arith))
        (send_segs-IsRound w reply len s id (omega (arith, max_upload_chunk_positive src))
          (omega arith) sum here.1)

  start_ordered_upload-IsRound :
      (src : Source) (given : Option (List ℕ)) (w : WholeVerOrderedUpload) (reply : Reply)
      (s : Option Stored)
      → IsSource bytes src
      → header_to_upload src given ≡ header
      → is_id w.transaction_id ≡ false
      → w.segs_ofs + w.segs_left ≡ length bytes
      → (w.segs_ofs ≡ 0) × (w.header ≡ some (length header)) × (s ≡ some nothing)
      → IsRound ver header bytes (start_ordered_upload src given ver w reply) reply s
  unfolding start_ordered_upload IsRound
  start_ordered_upload-IsRound src given w reply s reads head no_id sum here =
      elim (first_segs-cases src w reads sum) [
        | inl e ↦ rw (start_ordered_upload, e) (_, here.2)
        | inr r ↦
            rw (start_ordered_upload, r.3)
              (rw here.2 (
                send_first_segs-IsRound src given w reply r.0 no_id head r.1 r.2 here.0 here.1 sum))
      ]

  -- Any request of a whole upload.
  pub upload_round-IsRound :
      (src : Source) (given : Option (List ℕ)) (w : WholeVerOrderedUpload) (reply : Reply)
      (s : Option Stored)
      → IsSource bytes src
      → header_to_upload src given ≡ header
      → IsAt ver header bytes w s
      → IsRound ver header bytes (upload_round src given ver (ordered_whole w) reply) reply s
  unfolding upload_round
  upload_round-IsRound src given w reply s reads head here =
      elim (Bool-cases (is_id w.transaction_id)) [
        | inl id ↦
            rw id (continue_ordered_upload-IsRound src w reply s reads id here.0 (rw id at here.1))
        | inr id ↦ rw id (
            start_ordered_upload-IsRound src given w reply s reads head id here.0 (rw id at here.1))
      ]
