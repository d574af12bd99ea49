-- ===== src/ObjGc/Names.antt =====
-- The names of version files are read back as they were written, of
-- ts-code/core/storage/synced/obj-files-gc.ts.
use core_3nweb_client_lib.Base.{
  ℕ, zero, suc, ◌+◌, ◌-◌, ◌*◌, ◌/◌, ◌%◌, ◌<◌, ◌≤◌, ◌≡◌, refl, sym, ap, ◌∙◌, arith, true, false,
  le→leb, lt→ltb, Bool, ◌&&◌, ◌||◌, [], ◌∷◌, ◌++◌, All, Bool-cases, leb, ltb, ◌==◌, ==_refl, ==_iff,
  inl, inr, take-append-drop, if_cases, length, length-append, take, drop, drop-append_past,
  take-append_within, take_all, some,
}
use core_3nweb_client_lib.ObjGc.{
  Text, number, is_digit, decimal_from, unsigned, parse_int, plus_sign, digits_on, version_text,
  file_of, same_text, ends_with, without_ext, unsynced_ext, remote_ext, upload_ext,
}

abbrev IsDigit : ℕ → Type 0
IsDigit c = is_digit c ≡ true

All-append : (xs ys : Text) → All IsDigit xs → All IsDigit ys → All IsDigit (xs ++ ys)
All-append [] ys h k = k
All-append (x ∷ xs) ys (h, hs) k = (h, All-append xs ys hs k)

last-IsDigit : (n : ℕ) → IsDigit (48 + n % 10)
last-IsDigit n = ground arith

digits_on-IsDigit : (fuel n : ℕ) → All IsDigit (digits_on fuel n)
unfolding digits_on
digits_on-IsDigit zero n = tt
digits_on-IsDigit (suc f) n =
    if_cases (All IsDigit) (ltb n 10) (λ e. (ground arith, tt))
      (λ e. All-append (digits_on f (n / 10)) _ (digits_on-IsDigit f (n / 10)) (last-IsDigit n, tt))

decimal_from-append :
    (xs : Text) (acc c : ℕ)
    → All IsDigit xs
    → IsDigit c
    → decimal_from acc (xs ++ c ∷ []) ≡ decimal_from acc xs * 10 + (c - 48)
unfolding decimal_from
decimal_from-append [] acc c h k = rw k refl
decimal_from-append (x ∷ xs) acc c (h, hs) k = rw h (decimal_from-append xs _ c hs k)

decimal_from-digits_on : (fuel n : ℕ) → n < fuel → decimal_from 0 (digits_on fuel n) ≡ n
unfolding digits_on decimal_from
decimal_from-digits_on zero n h = absurd (omega arith)
decimal_from-digits_on (suc f) n h =
    if_cases (λ (t : Text). decimal_from 0 t ≡ n) (ltb n 10) (λ e. ground arith)
      (λ e.
        decimal_from-append (digits_on f (n / 10)) 0 _ (digits_on-IsDigit f (n / 10))
          (last-IsDigit n)
        ∙ ground (arith, decimal_from-digits_on f (n / 10) (ground arith)))

-- Text of digits that is not empty.
abbrev IsDigits : Text → Type 0
IsDigits [] = ⊥
IsDigits (c ∷ cs) = IsDigit c × All IsDigit cs

append-IsDigits : (xs : Text) (c : ℕ) → All IsDigit xs → IsDigit c → IsDigits (xs ++ c ∷ [])
append-IsDigits [] c h k = (k, tt)
append-IsDigits (x ∷ xs) c (h, hs) k = (h, All-append xs (c ∷ []) hs (k, tt))

version_text-IsDigits : (n : ℕ) → IsDigits (version_text n)
unfolding digits_on
version_text-IsDigits n =
    if_cases IsDigits (ltb n 10) (λ e. (ground arith, tt))
      (λ e.
        append-IsDigits (digits_on n (n / 10)) _ (digits_on-IsDigit n (n / 10)) (last-IsDigit n))

no_hex_mark : (c d : ℕ) → IsDigit d → (c == 48 && (d == 120 || d == 88)) ≡ false
no_hex_mark c d h = ground arith

no_dot_mark : (c : ℕ) → (c == 48 && false) ≡ false
no_dot_mark c = ground arith

unsigned-IsDigits : (t : Text) → IsDigits t → unsigned t ≡ some (decimal_from 0 t)
unfolding unsigned
unsigned-IsDigits [] h = absurd h
unsigned-IsDigits (c ∷ []) (h, hs) = ground arith
unsigned-IsDigits (c ∷ d ∷ ds) (h, (k, hs)) = rw (no_hex_mark c d k, h) refl

digit_alone :
    (c : ℕ)
    → IsDigit c
    → (((leb 9 c && leb c 13) || c == 32) ≡ false) × ((c == 45) ≡ false) × ((c == 43) ≡ false)
digit_alone c h = (ground arith, ground arith, ground arith)

parse_int-IsDigits : (t : Text) → IsDigits t → parse_int t ≡ plus_sign (unsigned t)
unfolding parse_int
parse_int-IsDigits [] h = absurd h
parse_int-IsDigits (c ∷ cs) (h, hs) =
    let (blank, minus, plus) = digit_alone c h in rw (blank, minus, plus) refl

-- A version that is written as a decimal is what `parseInt` reads back.
pub parse_int-version_text : (n : ℕ) → parse_int (version_text n) ≡ number n
unfolding version_text digits_on
parse_int-version_text n =
    parse_int-IsDigits (version_text n) (version_text-IsDigits n)
    ∙ ap plus_sign (unsigned-IsDigits (version_text n) (version_text-IsDigits n))
    ∙ ap (λ m. number m) (decimal_from-digits_on (suc n) n (ground arith))

pub same_text_refl : (t : Text) → same_text t t ≡ true
same_text_refl [] = refl
same_text_refl (c ∷ cs) = rw (==_refl c) (same_text_refl cs)

length_with_ext : (t ext : Text) → length (t ++ 46 ∷ ext) ≡ length t + suc (length ext)
length_with_ext t ext = length-append t (46 ∷ ext)

front_length : (t ext : Text) → length (t ++ 46 ∷ ext) - length ext ≡ length t + 1
front_length t ext = omega (arith, length_with_ext t ext)

drop_to_ext : (t ext : Text) → drop (length (t ++ 46 ∷ ext) - length ext) (t ++ 46 ∷ ext) ≡ ext
drop_to_ext t ext = drop-append_past _ 1 t (46 ∷ ext) (front_length t ext)

take_to_dot : (t ext : Text) → take (length (t ++ 46 ∷ ext) - 1 - length ext) (t ++ 46 ∷ ext) ≡ t
take_to_dot t ext =
    take-append_within _ t (46 ∷ ext) (omega (arith, length_with_ext t ext))
    ∙ take_all _ t (omega (arith, length_with_ext t ext))

-- Digits end at a dot.
decimal_from-dot :
    (xs : Text) (acc : ℕ) (ext : Text)
    → All IsDigit xs
    → decimal_from acc (xs ++ 46 ∷ ext) ≡ decimal_from acc xs
unfolding decimal_from
decimal_from-dot [] acc ext h = refl
decimal_from-dot (x ∷ xs) acc ext (h, hs) = rw h (decimal_from-dot xs _ ext hs)

parse_int-dot : (t ext : Text) → IsDigits t → parse_int (t ++ 46 ∷ ext) ≡ number (decimal_from 0 t)
unfolding parse_int unsigned
parse_int-dot [] ext h = absurd h
parse_int-dot (c ∷ []) ext (h, hs) =
    let (blank, minus, plus) = digit_alone c h in rw (blank, minus, plus, no_dot_mark c, h) refl
parse_int-dot (c ∷ d ∷ ds) ext (h, (k, hs)) =
    let (blank, minus, plus) = digit_alone c h in
    rw (blank, minus, plus, no_hex_mark c d k, h)
      (ap (λ m. number m) (decimal_from-dot (d ∷ ds) _ ext (k, hs)))

-- The version in front of a dot is what `parseInt` reads of the whole name.
pub parse_int-file_of : (n : ℕ) (ext : Text) → parse_int (file_of n ext) ≡ number n
unfolding file_of version_text digits_on
parse_int-file_of n ext =
    parse_int-dot (version_text n) ext (version_text-IsDigits n)
    ∙ ap (λ m. number m) (decimal_from-digits_on (suc n) n (ground arith))

-- The extension of a file's name, and what stands before it.
pub ends_with-file_of : (n : ℕ) (ext : Text) → ends_with (file_of n ext) ext ≡ true
unfolding file_of digits_on
ends_with-file_of n ext =
    let t = version_text n in
    rw (drop_to_ext t ext, same_text_refl ext)
      (rw (le→leb (length ext) (length (t ++ 46 ∷ ext)) (omega (arith, length_with_ext t ext)))
        refl)

pub without_ext-file_of : (n : ℕ) (ext : Text) → without_ext (file_of n ext) ext ≡ version_text n
unfolding file_of digits_on
without_ext-file_of n ext =
    let t = version_text n in
    rw (lt→ltb (length ext) (length (t ++ 46 ∷ ext)) (omega (arith, length_with_ext t ext)))
      (take_to_dot t ext)

-- A text has at most one end of a given length.
tails-append :
    (k : ℕ) (xs ys : Text)
    → k ≤ length ys
    → drop (length (xs ++ ys) - k) (xs ++ ys) ≡ drop (length ys - k) ys
tails-append k xs ys h =
    drop-append_past _ (length ys - k) xs ys (omega (arith, length-append xs ys))

pub left_of : (a b : Bool) → (a && b) ≡ true → a ≡ true
left_of true b h = refl
left_of false b h = cc h

pub right_of : (a b : Bool) → (a && b) ≡ true → b ≡ true
right_of true b h = h
right_of false b h = cc h

pub same_text_eq : (a b : Text) → same_text a b ≡ true → a ≡ b
same_text_eq [] [] h = refl
same_text_eq [] (d ∷ ds) h = cc h
same_text_eq (c ∷ cs) [] h = cc h
same_text_eq (c ∷ cs) (d ∷ ds) h =
    cc ((==_iff c d).0 (left_of (c == d) _ h), same_text_eq cs ds (right_of (c == d) _ h))

ends_with-append : (f ext : Text) → ends_with f ext ≡ true → (front : Text) × (f ≡ front ++ ext)
ends_with-append f ext h = (
  take (length f - length ext) f,
  sym (take-append-drop (length f - length ext) f)
      ∙ ap (◌++◌ (take (length f - length ext) f))
          (same_text_eq _ ext (right_of (leb (length ext) (length f)) _ h)),
)

other_end :
    (k : ℕ) (t ys ext : Text)
    → k ≤ length ys
    → k ≤ length ext
    → same_text (drop (length ys - k) ys) (drop (length ext - k) ext) ≡ false
    → ends_with (t ++ ys) ext ≡ false
other_end k t ys ext h h' differs = elim (Bool-cases (ends_with (t ++ ys) ext)) [
  | inr n ↦ n
  | inl y ↦
      let (front, e) = ends_with-append (t ++ ys) ext y in
      let same : drop (length ys - k) ys ≡ drop (length ext - k) ext =
        sym (tails-append k t ys h)
        ∙ ap (λ (f : Text). drop (length f - k) f) e
        ∙ tails-append k front ext h' in
      cc (
        differs,
        same_text_refl (drop (length ext - k) ext),
        ap (λ (f : Text). same_text f (drop (length ext - k) ext)) same,
      )
]

pub remote_not_unsynced : (n : ℕ) → ends_with (file_of n remote_ext) unsynced_ext ≡ false
unfolding file_of digits_on
remote_not_unsynced n =
    other_end 2 (version_text n) (46 ∷ remote_ext) unsynced_ext (omega arith) (omega arith) refl

pub upload_not_unsynced : (n : ℕ) → ends_with (file_of n upload_ext) unsynced_ext ≡ false
unfolding file_of digits_on
upload_not_unsynced n =
    other_end 2 (version_text n) (46 ∷ upload_ext) unsynced_ext (omega arith) (omega arith) refl

pub upload_not_remote : (n : ℕ) → ends_with (file_of n upload_ext) remote_ext ≡ false
unfolding file_of digits_on
upload_not_remote n =
    other_end 1 (version_text n) (46 ∷ upload_ext) remote_ext (omega arith) (omega arith) refl
