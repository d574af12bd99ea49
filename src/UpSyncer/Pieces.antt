-- ===== src/UpSyncer/Pieces.antt =====
-- The pieces of a diff upload, of ts-code/core/storage/synced/upsyncer.ts.
use core_3nweb_client_lib.Base.{
  ℕ, zero, suc, ◌+◌, ◌-◌, ◌≤◌, ◌<◌, min, ◌≡◌, refl, sym, subst, ap, ◌∙◌, arith, true, false, Option,
  none, some, List, [], ◌∷◌, ◌++◌, append-nil, append_assoc, ltb, ◌==◌, length, take, drop, All, ok,
  Bool-cases, ◌⊎◌, inl, inr, lt→ltb, if_cases,
}
use core_3nweb_client_lib.StatusInfo.{
  DiffVerOrderedUpload, NeedUpload, ordered_whole, ordered_diff, add_lens,
}
use core_3nweb_client_lib.UpSyncer.{
  Source, Request, first, follow, Reply, saved, disconnected, Round, max_upload_chunk, when_saved,
  with_rest, send_piece, continue_pieces, continue_ordered_diff_upload,
}
use core_3nweb_client_lib.UpSyncer.Server.{IsSource, take_add}
use core_3nweb_client_lib.UpSyncer.Whole.{checked_segs-read_at, max_upload_chunk_positive}

-- The bytes of pieces, which are offsets and lengths.
abbrev pub pieces_bytes : List ℕ → List (ℕ × ℕ) → List ℕ
pieces_bytes bytes [] = []
pieces_bytes bytes ((ofs, len) ∷ rest) = take len (drop ofs bytes) ++ pieces_bytes bytes rest

abbrev pub IsInside : ℕ → ℕ × ℕ → Type 0
IsInside size (ofs, len) = ofs + len ≤ size

drop_add : (k m n : ℕ) (xs : List ℕ) → k ≡ m + n → drop n (drop m xs) ≡ drop k xs
drop_add k zero n xs e = ap (λ (t : ℕ). drop t xs) (omega arith)
drop_add zero (suc m) n xs e = absurd (omega arith)
drop_add (suc k) (suc m) zero [] e = refl
drop_add (suc k) (suc m) (suc n) [] e = refl
drop_add (suc k) (suc m) n (x ∷ xs) e = drop_add k m n xs (omega arith)

-- What is sent of a piece and what is put behind it make the piece.
with_rest-bytes :
    (bytes : List ℕ) (ofs piece_len len : ℕ) (rest : List (ℕ × ℕ))
    → len ≤ piece_len
    → take len (drop ofs bytes) ++ pieces_bytes bytes (with_rest ofs piece_len len rest)
      ≡ pieces_bytes bytes ((ofs, piece_len) ∷ rest)
unfolding with_rest
with_rest-bytes bytes ofs piece_len len rest le = elim (Bool-cases (ltb len piece_len)) [
  | inl e ↦
      let more = piece_len - len in
      rw e (
        sym (
          append_assoc (take len (drop ofs bytes)) (take more (drop (ofs + len) bytes))
            (pieces_bytes bytes rest))
        ∙ ap (λ (t : List ℕ). t ++ pieces_bytes bytes rest)
            (ap (λ (t : List ℕ). take len (drop ofs bytes) ++ take more t)
                (sym (drop_add (ofs + len) ofs len bytes refl))
              ∙ sym (take_add len more (drop ofs bytes))
              ∙ ap (λ (t : ℕ). take t (drop ofs bytes)) (ground (arith, e))))
  | inr e ↦
      rw e (ap (λ (t : ℕ). take t (drop ofs bytes) ++ pieces_bytes bytes rest) (ground (arith, e)))
]

with_rest-IsInside :
    (size ofs piece_len len : ℕ) (rest : List (ℕ × ℕ))
    → len ≤ piece_len
    → All (IsInside size) ((ofs, piece_len) ∷ rest)
    → All (IsInside size) (with_rest ofs piece_len len rest)
unfolding with_rest
with_rest-IsInside size ofs piece_len len rest le inside =
    if_cases (All (IsInside size)) (ltb len piece_len)
      (λ e. (ground (arith, e, inside.0), inside.1)) (λ _. inside.1)

positive-is_not_zero : (n : ℕ) → (suc n == 0) ≡ false
positive-is_not_zero n = ground arith

-- Requests that are enough for the pieces: more than one for each, and one for each byte.
abbrev pub requests_for : List (ℕ × ℕ) → ℕ
requests_for [] = 0
requests_for ((ofs, len) ∷ rest) = suc len + requests_for rest

with_rest-requests_for :
    (ofs piece_len len : ℕ) (rest : List (ℕ × ℕ))
    → (0 < len) ⊎ (piece_len ≡ 0)
    → len ≤ piece_len
    → requests_for (with_rest ofs piece_len len rest) < requests_for ((ofs, piece_len) ∷ rest)
unfolding with_rest
with_rest-requests_for ofs piece_len len rest pos le =
    if_cases (λ (p : List (ℕ × ℕ)). requests_for p < requests_for ((ofs, piece_len) ∷ rest))
      (ltb len piece_len) (λ e. ground (arith, e, pos)) (λ _. omega arith)

piece_or_nothing :
    (src : Source) (piece_len : ℕ) → (0 < min (max_upload_chunk src) piece_len) ⊎ (piece_len ≡ 0)
piece_or_nothing src zero = inr refl
piece_or_nothing src (suc n) = inl (omega (arith, max_upload_chunk_positive src))

-- The segments that a request carries.
abbrev pub segs_sent : Option Request → List ℕ
segs_sent none = []
segs_sent (some (first ver last header diff none)) = []
segs_sent (some (first ver last header diff (some segs))) = segs
segs_sent (some (follow trans ofs last segs)) = segs

add_lens-shift : (k n : ℕ) (cs : List (ℕ × ℕ)) → add_lens (n + k) cs ≡ add_lens n cs + k
unfolding add_lens
add_lens-shift k n [] = refl
add_lens-shift k n ((ofs, len) ∷ cs) =
    ap (λ (t : ℕ). add_lens t cs) (omega arith) ∙ add_lens-shift k (n + len) cs

-- What a request sends, with what the next ones do when a diff upload goes on.
abbrev and_more :
    Round → (DiffVerOrderedUpload → List ℕ × Option NeedUpload) → List ℕ × Option NeedUpload
and_more (request, none, res) next = (segs_sent request, none)
and_more (request, some (ordered_whole w), res) next = (segs_sent request, some (ordered_whole w))
and_more (request, some (ordered_diff d), res) next =
    let more = next d in (segs_sent request ++ more.0, more.1)

-- Following requests of a diff upload one after another, all of which are saved: what they send,
-- and what is needed after them.
pub continue_all : Source → DiffVerOrderedUpload → ℕ → List ℕ × Option NeedUpload
unfolding continue_ordered_diff_upload
continue_all src d zero = ([], some (ordered_diff d))
continue_all src d (suc n) =
    and_more (continue_ordered_diff_upload src d (saved none)) (λ d'. continue_all src d' n)

module _ (bytes : List ℕ) (src : Source) (reads : IsSource bytes src) where
  continue_pieces-eq :
      (d : DiffVerOrderedUpload) (reply : Reply) (ofs piece_len : ℕ) (rest : List (ℕ × ℕ))
      → ofs + piece_len ≤ length bytes
      → let len = min (max_upload_chunk src) piece_len in
        let rest' = with_rest ofs piece_len len rest in
        continue_pieces src d reply ((ofs, piece_len) ∷ rest)
        ≡ send_piece
            (record d { new_segs_left = (ofs, piece_len) ∷ rest' })
            reply
            ofs
            (take len (drop ofs bytes))
            rest'
  unfolding continue_pieces
  continue_pieces-eq d reply ofs piece_len rest inside =
      let len = min (max_upload_chunk src) piece_len in
      rw (continue_pieces, checked_segs-read_at bytes src ofs len reads (omega arith)) refl

  send_piece-last :
      (d : DiffVerOrderedUpload) (ofs : ℕ) (segs : List ℕ)
      → send_piece d (saved none) ofs segs []
        ≡ (some (follow d.transaction_id ofs true segs), none, ok tt)
  unfolding send_piece when_saved
  send_piece-last d ofs segs = refl

  send_piece-next :
      (d : DiffVerOrderedUpload) (ofs : ℕ) (segs : List ℕ) (p : ℕ × ℕ) (rest : List (ℕ × ℕ))
      → send_piece d (saved none) ofs segs (p ∷ rest) ≡ (
        some (follow d.transaction_id ofs false segs),
        some (ordered_diff (record d { new_segs_left = p ∷ rest })),
        ok tt,
      )
  unfolding send_piece when_saved
  send_piece-next d ofs segs p rest = rw (positive-is_not_zero (length rest)) refl

  -- After the rest of a piece is put behind it, by what is left.
  sent_all :
      (d : DiffVerOrderedUpload) (n ofs : ℕ) (segs : List ℕ) (pieces : List (ℕ × ℕ))
      → ((d' : DiffVerOrderedUpload)
          → d'.new_segs_left ≡ pieces
          → 0 < length pieces
          → continue_all src d' n ≡ (pieces_bytes bytes pieces, none))
      → and_more (send_piece d (saved none) ofs segs pieces) (λ d'. continue_all src d' n)
        ≡ (segs ++ pieces_bytes bytes pieces, none)
  sent_all d n ofs segs [] next =
      rw (send_piece-last d ofs segs) (ap (λ (t : List ℕ). (t, none)) (sym (append-nil segs)))
  sent_all d n ofs segs (p ∷ rest) next =
      rw (send_piece-next d ofs segs p rest)
        (rw (next (record d { new_segs_left = p ∷ rest }) refl (omega arith)) refl)

  -- For a diff upload with at least one piece, all of which lie in the version, and which is read
  -- as `bytes`: when all following requests are saved, and they are as many as there are pieces and
  -- bytes together, they send the bytes of the pieces, in their order and each once, and then
  -- nothing is needed any more.
  pub continue_all-pieces_bytes :
      (d : DiffVerOrderedUpload) (pieces : List (ℕ × ℕ)) (n : ℕ)
      → d.new_segs_left ≡ pieces
      → 0 < length pieces
      → All (IsInside (length bytes)) pieces
      → requests_for pieces ≤ n
      → continue_all src d n ≡ (pieces_bytes bytes pieces, none)
  unfolding continue_all continue_ordered_diff_upload
  continue_all-pieces_bytes d [] n e pos inside enough = absurd (omega arith)
  continue_all-pieces_bytes d ((ofs, piece_len) ∷ rest) zero e pos inside enough =
      absurd (omega arith)
  continue_all-pieces_bytes d ((ofs, piece_len) ∷ rest) (suc n) e pos inside enough =
      let len = min (max_upload_chunk src) piece_len in
      let rest' = with_rest ofs piece_len len rest in
      subst
        (λ (p : List (ℕ × ℕ)).
          and_more (continue_pieces src d (saved none) p) (λ d'. continue_all src d' n)
          ≡ (pieces_bytes bytes ((ofs, piece_len) ∷ rest), none))
        (sym e)
        (rw (continue_pieces-eq d (saved none) ofs piece_len rest inside.0) (
          sent_all (record d { new_segs_left = (ofs, piece_len) ∷ rest' }) n ofs
            (take len (drop ofs bytes)) rest'
            (λ d' same some_left.
              continue_all-pieces_bytes d' rest' n same some_left
                (with_rest-IsInside (length bytes) ofs piece_len len rest (omega arith) inside)
                (omega (
                  arith,
                  enough,
                  with_rest-requests_for ofs piece_len len rest (piece_or_nothing src piece_len)
                      (omega arith),
                )))
          ∙ ap (λ (t : List ℕ). (t, none))
              (with_rest-bytes bytes ofs piece_len len rest (omega arith))))

  -- When a connection is lost on a piece of a diff upload that is longer than a request may be, the
  -- rest of the piece has been put behind it already and the piece is as long as before: the number
  -- of bytes that are left grows by what the piece has over `maxUploadChunk()`.
  pub continue_pieces-disconnected :
      (d : DiffVerOrderedUpload) (ofs piece_len : ℕ) (rest : List (ℕ × ℕ))
      → ofs + piece_len ≤ length bytes
      → max_upload_chunk src < piece_len
      → (d' : DiffVerOrderedUpload) × ((continue_pieces src d disconnected
            ((ofs, piece_len) ∷ rest)).1
          ≡ some (ordered_diff d'))
        × (add_lens 0 d'.new_segs_left
            ≡ add_lens 0 ((ofs, piece_len) ∷ rest) + (piece_len - max_upload_chunk src))
  unfolding send_piece when_saved with_rest add_lens
  continue_pieces-disconnected d ofs piece_len rest inside longer =
      let len = min (max_upload_chunk src) piece_len in
      let rest' = with_rest ofs piece_len len rest in
      (
        record d { new_segs_left = (ofs, piece_len) ∷ rest' },
        rw (continue_pieces-eq d disconnected ofs piece_len rest inside) refl,
        rw (lt→ltb len piece_len (omega arith)) (
            ap (λ (t : ℕ). add_lens t rest) (omega arith)
            ∙ add_lens-shift (piece_len - max_upload_chunk src) piece_len rest
            ∙ ap (λ (t : ℕ). add_lens t rest + (piece_len - max_upload_chunk src)) (omega arith)),
      )
