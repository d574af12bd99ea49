-- ===== src/BytesFifo/Order.antt =====
-- The buffer of bytes-fifo-buffer.ts is a queue of bytes: what it holds is one list, of which
-- `push` extends the end and `getBytes` takes the front.
use core_3nweb_client_lib.Base.{
  ℕ, zero, suc, ◌-◌, ◌≤◌, ◌<◌, ◌≡◌, ◌∙◌, inl, inr, refl, sym, ap, arith, List, [], ◌∷◌, ◌++◌,
  length, length-append, length-take, length-drop, append_assoc, append-nil, take, drop,
  take-append_past, drop-append_past, take-append_within, drop-append_within, take_all, drop_all,
  leb, ltb, lt→ltb, ge→ltb, le→leb, gt→leb, ◌==◌, Bool, true, false, Bool-cases, if◌then◌else◌,
  Option, none, some, Outcome, ok, throws, All,
}
use core_3nweb_client_lib.BytesFifo.{
  BytesFifo, FifoError, illegal_length, push, extract_loop, extract_some_bytes_from,
  extract_all_bytes_from, count_extract, counted, get_bytes,
}

abbrev pub joined : List (List ℕ) → List ℕ
joined [] = []
joined (c ∷ cs) = c ++ joined cs

-- The bytes in the buffer, oldest first.
abbrev pub contents : BytesFifo → List ℕ
contents b = joined b.queue

-- No chunk is empty, and the count is the number of bytes.
pub record IsValid (b : BytesFifo) : Type 0 where
  pub chunks : All (λ c. 0 < length c) b.queue
  pub counts : b.bytes_len ≡ length (contents b)

-- `getBytes` of an ideal queue of bytes.
pub take_bytes : List ℕ → Option ℕ → Bool → Outcome FifoError (List ℕ × Option (List ℕ))
take_bytes [] none less = ok ([], none)
take_bytes (x ∷ xs) none less = ok ([], some (x ∷ xs))
take_bytes xs (some zero) less = throws illegal_length
take_bytes [] (some (suc n)) less = ok ([], none)
take_bytes (x ∷ xs) (some (suc n)) less =
    if leb (suc n) (length (x ∷ xs))
    then ok (drop (suc n) (x ∷ xs), some (take (suc n) (x ∷ xs)))
    else if less
    then ok ([], some (x ∷ xs))
    else ok (x ∷ xs, none)

joined-append : (q : List (List ℕ)) (w : List ℕ) → joined (q ++ (w ∷ [])) ≡ joined q ++ w
joined-append [] w = append-nil w
joined-append (c ∷ q) w = ap (◌++◌ c) (joined-append q w) ∙ sym (append_assoc c (joined q) w)

All-append_one :
    (q : List (List ℕ)) (w : List ℕ)
    → All (λ c. 0 < length c) q
    → 0 < length w
    → All (λ c. 0 < length c) (q ++ (w ∷ []))
All-append_one [] w h hw = (hw, tt)
All-append_one (c ∷ q) w (hc, h) hw = (hc, All-append_one q w h hw)

nil_of_length : (w : List ℕ) → length w ≡ 0 → w ≡ []
nil_of_length [] h = refl
nil_of_length (x ∷ w) h = absurd (omega arith)

-- Pushed bytes, an empty array included, go behind all bytes in the buffer, and the buffer stays
-- well formed.
pub push_appends :
    (b : BytesFifo) (w : List ℕ)
    → IsValid b
    → IsValid (push b w) × (contents (push b w) ≡ contents b ++ w)
unfolding push
push_appends b w h = elim (Bool-cases (length w == 0)) [
  | inl e ↦ rw (e, nil_of_length w (ground arith), append-nil) (h, refl)
  | inr e ↦ rw e (
    record {
      chunks = All-append_one b.queue w h.chunks (ground arith);
      counts =
          omega
            (arith, h.counts, ap length (joined-append b.queue w), length-append (contents b) w);
    },
    joined-append b.queue w,
  )
]

-- The loop takes the front of the queue's bytes, if they are enough.
extract_loop_lem :
    (q : List (List ℕ)) (n : ℕ)
    → All (λ c. 0 < length c) q
    → n ≤ length (joined q)
    → (q' : List (List ℕ)) × (extract_loop q n ≡ ok (take n (joined q), q'))
      × (joined q' ≡ drop n (joined q))
      × All (λ c. 0 < length c) q'
unfolding extract_loop
extract_loop_lem q zero h fits = (q, refl, refl, h)
extract_loop_lem [] (suc n) h fits = absurd (omega arith)
extract_loop_lem (c ∷ q) (suc n) (hc, h) fits = elim (Bool-cases (leb (length c) (suc n))) [
  | inl e ↦
      let le : length c ≤ suc n = ground arith in
      let k = suc n - length c in
      let (q', taken, left, valid) =
        extract_loop_lem q k h (omega (arith, length-append c (joined q))) in
      (
        q',
        rw (e, taken, take-append_past (suc n) k c (joined q) (omega arith)),
        left ∙ sym (drop-append_past (suc n) k c (joined q) (omega arith)),
        valid,
      )
  | inr e ↦
      let lt : suc n < length c = ground arith in
      (
        drop (suc n) c ∷ q,
        rw (e, take-append_within (suc n) c (joined q) (omega arith)),
        sym (drop-append_within (suc n) c (joined q) (omega arith)),
        (omega (arith, length-drop (suc n) c), h),
      )
]

-- What a call of the buffer is to a call of the ideal queue.
abbrev pub Refines :
    Outcome FifoError (BytesFifo × Option (List ℕ))
    → Outcome FifoError (List ℕ × Option (List ℕ))
    → Type 0
Refines (ok (b', r)) spec = IsValid b' × (spec ≡ ok (contents b', r))
Refines (throws e) spec = spec ≡ throws e

abbrev fifo : List (List ℕ) → ℕ → BytesFifo
fifo q n = record { queue = q; bytes_len = n }

module _ (c : List ℕ) (q : List (List ℕ)) (size : ℕ) (valid : IsValid (fifo (c ∷ q) size)) where
  some-counted :
      (n : ℕ)
      → n ≤ size
      → (b : BytesFifo) × (counted (extract_some_bytes_from (fifo (c ∷ q) size) n)
          ≡ ok (b, some (take n (joined (c ∷ q)))))
        × (contents b ≡ drop n (joined (c ∷ q)))
        × IsValid b
  unfolding extract_some_bytes_from count_extract
  some-counted n fits =
      let all = joined (c ∷ q) in
      let (q', taken, left, chunks) =
        extract_loop_lem (c ∷ q) n valid.chunks (omega (arith, valid.counts)) in
      (
        fifo q' (size - length (take n all)),
        rw taken,
        left,
        record {
          chunks = chunks;
          counts =
              omega (arith, valid.counts, ap length left, length-take n all, length-drop n all);
        },
      )

  nonempty : (x : ℕ) × (xs : List ℕ) × (joined (c ∷ q) ≡ x ∷ xs)
  nonempty = first c (valid.chunks.0)
    where
      first : (d : List ℕ) → 0 < length d → (x : ℕ) × (xs : List ℕ) × (d ++ joined q ≡ x ∷ xs)
      first [] h = absurd (omega arith)
      first (x ∷ d) h = (x, d ++ joined q, refl)

  all-counted :
      (b : BytesFifo) × (counted (extract_all_bytes_from (fifo (c ∷ q) size))
        ≡ ok (b, some (joined (c ∷ q))))
      × (contents b ≡ [])
      × IsValid b
  unfolding extract_all_bytes_from
  all-counted =
      let (b, e, left, v) = some-counted size (omega arith) in
      (
        b,
        e ∙ ap (λ t. ok (b, some t)) (take_all size _ (omega (arith, valid.counts))),
        left ∙ drop_all size _ (omega (arith, valid.counts)),
        v,
      )

-- The ideal queue with bytes in it.
take_bytes-none :
    (all : List ℕ) (less : Bool)
    → (x : ℕ) × (xs : List ℕ) × (all ≡ x ∷ xs)
    → take_bytes all none less ≡ ok ([], some all)
unfolding take_bytes
take_bytes-none all less (x, xs, e) = rw e

take_bytes-some :
    (all : List ℕ) (n : ℕ) (less : Bool)
    → (x : ℕ) × (xs : List ℕ) × (all ≡ x ∷ xs)
    → take_bytes all (some (suc n)) less ≡ (
        if leb (suc n) (length all)
        then ok (drop (suc n) all, some (take (suc n) all))
        else if less
        then ok ([], some all)
        else ok (all, none))
unfolding take_bytes
take_bytes-some all n less (x, xs, e) = rw e

-- A call on a buffer with bytes in it: enough of them, or too few.
module _ (c : List ℕ) (q : List (List ℕ)) (size n : ℕ) (h : IsValid (fifo (c ∷ q) size)) where
  get_enough :
      (less : Bool)
      → suc n ≤ size
      → Refines
          (get_bytes (fifo (c ∷ q) size) (some (suc n)) less)
          (take_bytes (joined (c ∷ q)) (some (suc n)) less)
  unfolding get_bytes
  get_enough less fits =
      let (b, e, left, v) = some-counted c q size h (suc n) fits in
      rw
        (
          ge→ltb (suc n) 1 (omega arith),
          ge→ltb size (suc n) fits,
          e,
          take_bytes-some (joined (c ∷ q)) n less (nonempty c q size h),
          le→leb (suc n) (length (joined (c ∷ q))) (omega (arith, h.counts)),
        )
        (v, ap (λ t. ok (t, some (take (suc n) (joined (c ∷ q))))) (sym left))

  get_few :
      (less : Bool)
      → size < suc n
      → Refines
          (get_bytes (fifo (c ∷ q) size) (some (suc n)) less)
          (take_bytes (joined (c ∷ q)) (some (suc n)) less)
  unfolding get_bytes
  get_few true lacks =
      let (b, e, left, v) = all-counted c q size h in
      rw
        (
          ge→ltb (suc n) 1 (omega arith),
          lt→ltb size (suc n) lacks,
          e,
          take_bytes-some (joined (c ∷ q)) n true (nonempty c q size h),
          gt→leb (suc n) (length (joined (c ∷ q))) (omega (arith, h.counts)),
        )
        (v, ap (λ t. ok (t, some (joined (c ∷ q)))) (sym left))
  get_few false lacks =
      rw
        (
          ge→ltb (suc n) 1 (omega arith),
          lt→ltb size (suc n) lacks,
          take_bytes-some (joined (c ∷ q)) n false (nonempty c q size h),
          gt→leb (suc n) (length (joined (c ∷ q))) (omega (arith, h.counts)),
        )
        (h, refl)

get_bytes-fifo :
    (q : List (List ℕ)) (size : ℕ) (len : Option ℕ) (less : Bool)
    → IsValid (fifo q size)
    → Refines (get_bytes (fifo q size) len less) (take_bytes (joined q) len less)
unfolding get_bytes
get_bytes-fifo [] size none less h =
    unfold take_bytes extract_all_bytes_from extract_some_bytes_from count_extract in (h, refl)
get_bytes-fifo [] size (some zero) less h = unfold take_bytes in refl
get_bytes-fifo [] size (some (suc n)) less h =
    rw (ge→ltb (suc n) 1 (omega arith)) (unfold take_bytes in (h, refl))
get_bytes-fifo (c ∷ q) size none less h =
    let (b, e, left, v) = all-counted c q size h in
    rw e (
      v,
      take_bytes-none _ less (nonempty c q size h)
          ∙ ap (λ t. ok (t, some (joined (c ∷ q)))) (sym left),
    )
get_bytes-fifo (c ∷ q) size (some zero) less h =
    let (x, xs, e) = nonempty c q size h in rw e (unfold take_bytes in refl)
get_bytes-fifo (c ∷ q) size (some (suc n)) less h = elim (Bool-cases (ltb size (suc n))) [
  | inl short ↦ get_few c q size n h less (ground arith)
  | inr enough ↦ get_enough c q size n h less (ground arith)
]

-- On a well formed buffer `getBytes` does what it does on an ideal queue of bytes, whatever the
-- length asked for: it throws exactly where the ideal one throws, and otherwise returns the same
-- bytes or `undefined`, keeps the same bytes in the same order, and leaves a well formed buffer.
-- No missing chunk is ever read.
pub get_bytes-Refines :
    (b : BytesFifo) (len : Option ℕ) (less : Bool)
    → IsValid b
    → Refines (get_bytes b len less) (take_bytes (contents b) len less)
get_bytes-Refines b len less h = get_bytes-fifo b.queue b.bytes_len len less h
