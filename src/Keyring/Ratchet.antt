-- ===== src/Keyring/Ratchet.antt =====
-- How pairs move on, of ts-code/core/keyring/correspondent-keys.ts.
use core_3nweb_client_lib.Base.{
  ℕ, ◌+◌, ◌≤◌, ◌≡◌, ◌≢◌, refl, ap, ◌∙◌, subst, arith, Bool, true, false, Option, none, some, List,
  [], ◌∷◌, includes, Outcome, ok, throws, ◌>>=◌, >>=-eq-ok, ok_injective, Bool-cases, Outcome-cases,
  inl, inr, if_cases, get_elem?, length,
}
use core_3nweb_client_lib.Keyring.{
  JsonKey, JwKeyPair, ReceptionPair, RatchetedSendingPair, SendingPair, intro, ratcheted,
  ReceptionPairs, CorrespondentKeys, SuggestedNextKeyPair, MsgKeyRole, suggested_role, in_use_role,
  old_role, KeyError, Given, calc_msg_master_key, Result, generate_suggested, when_to_suggest,
  suggest_pair, with_suggested, should_suggest_new_pair, recipient_pkey_of, shift_pairs,
  mark_pair_as_in_use,
}
use core_3nweb_client_lib.Keyring.Messages.{
  ratchet_up_sending_pair, set_from, with_sending, is_passed_by, sender_key_for, ratcheted_to,
  new_sending_pair, get_receiving_pair, found_as, count_after, update_msg_count, select_pid,
  ForSending, by_pid, sending_pair_or_intro, and_send, send_with, get_sending_pair,
}
use core_3nweb_client_lib.Keyring.Indexed.{
  KeysStep, suggests, marks, ratchets, sends, KeysReach, here, next,
}

abbrev pub next_role : MsgKeyRole → MsgKeyRole
next_role suggested_role = in_use_role
next_role in_use_role = old_role
next_role old_role = old_role

abbrev advance : Option (ReceptionPair × MsgKeyRole) → Option (ReceptionPair × MsgKeyRole)
advance none = none
advance (some (pair, role)) = some (pair, next_role role)

found_old :
    (o : Option ReceptionPair) (pid : ℕ) (pair : ReceptionPair) (role : MsgKeyRole)
    → found_as o pid old_role none ≡ some (pair, role)
    → role ≡ old_role
found_old none pid pair role h = cc
found_old (some p) pid pair role h = elim (Bool-cases (includes p.pids pid)) [
  | inl e ↦ cc (rw e at h)
  | inr e ↦ cc (rw e at h)
]

-- The three pairs before, and the same with each moved on by one.
found_after :
    (s : ReceptionPair) (in_use old : Option ReceptionPair) (pid : ℕ) (pair : ReceptionPair)
    (role : MsgKeyRole) (last : Option (ReceptionPair × MsgKeyRole))
    → found_as
        (some s)
        pid
        suggested_role
        (found_as in_use pid in_use_role (found_as old pid old_role none))
      ≡ some (pair, role)
    → role ≢ old_role
    → found_as (some s) pid in_use_role (found_as in_use pid old_role last)
      ≡ some (pair, next_role role)
found_after s in_use old pid pair role last h moves = elim (Bool-cases (includes s.pids pid)) [
  | inl e ↦ rw e (ap advance (rw e at h))
  | inr e ↦ rw e (in_second in_use (rw e at h))
]
  where
    in_second :
        (o : Option ReceptionPair)
        → found_as o pid in_use_role (found_as old pid old_role none) ≡ some (pair, role)
        → found_as o pid old_role last ≡ some (pair, next_role role)
    in_second none h2 = absurd (moves (found_old old pid pair role h2))
    in_second (some mp) h2 = elim (Bool-cases (includes mp.pids pid)) [
      | inl e ↦ rw e (ap advance (rw e at h2))
      | inr e ↦ absurd (moves (found_old old pid pair role (rw e at h2)))
    ]

-- When the suggested pair becomes the one in use, an id that was found in it or in the pair in use
-- is still found, in the same pair, which has moved on by one role.
pub get_receiving_pair-mark_pair_as_in_use :
    (c : CorrespondentKeys) (pid : ℕ) (s pair : ReceptionPair) (role : MsgKeyRole)
    → c.keys.reception_pairs.suggested ≡ some s
    → get_receiving_pair c.keys.reception_pairs pid ≡ some (pair, role)
    → role ≢ old_role
    → get_receiving_pair (mark_pair_as_in_use c suggested_role).keys.reception_pairs pid
      ≡ some (pair, next_role role)
unfolding get_receiving_pair mark_pair_as_in_use shift_pairs
get_receiving_pair-mark_pair_as_in_use c pid s pair role e found moves =
    by_in_use c.keys.reception_pairs.in_use refl
  where
    by_in_use :
        (o : Option ReceptionPair)
        → c.keys.reception_pairs.in_use ≡ o
        → get_receiving_pair (mark_pair_as_in_use c suggested_role).keys.reception_pairs pid
          ≡ some (pair, next_role role)
    by_in_use none n =
        rw (mark_pair_as_in_use, e, shift_pairs, n)
          (found_after s none c.keys.reception_pairs.old pid pair role
            (found_as c.keys.reception_pairs.old pid old_role none) (rw (e, n) at found) moves)
    by_in_use (some mp) n =
        rw (mark_pair_as_in_use, e, shift_pairs, n)
          (found_after s (some mp) c.keys.reception_pairs.old pid pair role none
            (rw (e, n) at found) moves)

-- The time of the pair that messages are sent with; there is none for an introductory key.
abbrev pub sending_time : Option SendingPair → ℕ
sending_time none = 0
sending_time (some (intro key)) = 0
sending_time (some (ratcheted p)) = p.timestamp

not_passed_by-le :
    (sending : Option SendingPair) (pair : SuggestedNextKeyPair)
    → is_passed_by sending pair ≡ false
    → sending_time sending ≤ pair.timestamp
unfolding is_passed_by
not_passed_by-le none pair h = omega arith
not_passed_by-le (some (intro key)) pair h = omega arith
not_passed_by-le (some (ratcheted p)) pair h = ground (arith, h)

-- A change of the keys after which messages are not sent with an older pair.
abbrev IsNotOlder : CorrespondentKeys → CorrespondentKeys → Type 0
IsNotOlder c d = sending_time c.keys.sending_pair ≤ sending_time d.keys.sending_pair

generate_suggested-time :
    (c : CorrespondentKeys) (g : Given) (sending : SendingPair)
    → IsNotOlder c (generate_suggested c g sending).0
unfolding generate_suggested with_suggested
generate_suggested-time c g sending =
    elim (Outcome-cases (calc_msg_master_key g g.new_key.skey (recipient_pkey_of sending))) [
      | inl r ↦ rw (generate_suggested, r.1) (omega arith)
      | inr r ↦ rw (generate_suggested, r.1) (omega arith)
    ]

when_to_suggest-time :
    (c : CorrespondentKeys) (g : Given) (sending : Option SendingPair) (due : Outcome KeyError Bool)
    → IsNotOlder c (when_to_suggest c g sending due).0
unfolding when_to_suggest
when_to_suggest-time c g sending (throws e) = omega arith
when_to_suggest-time c g sending (ok false) = omega arith
when_to_suggest-time c g none (ok true) = omega arith
when_to_suggest-time c g (some sending) (ok true) = generate_suggested-time c g sending

suggest_pair-time :
    (c : CorrespondentKeys) (g : Given) (o : Option ReceptionPair)
    → c.keys.reception_pairs.suggested ≡ o
    → IsNotOlder c (suggest_pair c g).0
unfolding suggest_pair
suggest_pair-time c g none e =
    rw (suggest_pair, e)
      (when_to_suggest-time c g c.keys.sending_pair
        (should_suggest_new_pair c.keys.sending_pair g.now))
suggest_pair-time c g (some pair) e = rw (suggest_pair, e) (omega arith)

shift_pairs-time :
    (c : CorrespondentKeys) (pair : ReceptionPair) (o : Option ReceptionPair)
    → c.keys.reception_pairs.in_use ≡ o
    → IsNotOlder c (shift_pairs c pair)
unfolding shift_pairs
shift_pairs-time c pair none e = rw (shift_pairs, e) (omega arith)
shift_pairs-time c pair (some mp) e = rw (shift_pairs, e) (omega arith)

mark_pair_as_in_use-time :
    (c : CorrespondentKeys) (role : MsgKeyRole) (o : Option ReceptionPair)
    → c.keys.reception_pairs.suggested ≡ o
    → IsNotOlder c (mark_pair_as_in_use c role)
unfolding mark_pair_as_in_use
mark_pair_as_in_use-time c in_use_role o e = omega arith
mark_pair_as_in_use-time c old_role o e = omega arith
mark_pair_as_in_use-time c suggested_role none e = rw (mark_pair_as_in_use, e) (omega arith)
mark_pair_as_in_use-time c suggested_role (some pair) e =
    rw (mark_pair_as_in_use, e) (shift_pairs-time c pair c.keys.reception_pairs.in_use refl)

set_from-time :
    (c : CorrespondentKeys) (m : Outcome KeyError SendingPair)
    → ((p : SendingPair) → m ≡ ok p → sending_time c.keys.sending_pair ≤ sending_time (some p))
    → IsNotOlder c (set_from c m).0
unfolding set_from with_sending
set_from-time c (throws e) h = omega arith
set_from-time c (ok p) h = h p refl

new_sending_pair-time :
    (rp : ReceptionPairs) (g : Given) (pair : SuggestedNextKeyPair) (used : Option JwKeyPair)
    (p : SendingPair)
    → new_sending_pair rp g pair used ≡ ok p
    → sending_time (some p) ≡ pair.timestamp
unfolding new_sending_pair
new_sending_pair-time rp g pair used p made =
    let (sender_key, e1, e2) =
      >>=-eq-ok (sender_key_for rp pair used)
        (λ sender_key. calc_msg_master_key g sender_key.skey pair.recipient_pkey >>= λ key.
          ok (ratcheted_to pair sender_key key))
        made in
    let (key, e3, e4) =
      >>=-eq-ok (calc_msg_master_key g sender_key.skey pair.recipient_pkey)
        (λ key. ok (ratcheted_to pair sender_key key)) e2 in
    subst (λ (q : SendingPair). sending_time (some q) ≡ pair.timestamp)
      (ok_injective {a = ratcheted_to pair sender_key key} {b = p} e4) refl

ratchet_up-time :
    (c : CorrespondentKeys) (g : Given) (pair : SuggestedNextKeyPair) (used : Option JwKeyPair)
    → IsNotOlder c (ratchet_up_sending_pair c g pair used).0
unfolding ratchet_up_sending_pair
ratchet_up-time c g pair used =
    if_cases (λ (r : Result (Unit {0})). IsNotOlder c r.0) (is_passed_by c.keys.sending_pair pair)
      (λ _. omega arith)
      (λ newer. set_from-time c (new_sending_pair c.keys.reception_pairs g pair used) (λ p made.
        omega (
          arith,
          new_sending_pair-time c.keys.reception_pairs g pair used p made,
          not_passed_by-le c.keys.sending_pair pair newer,
        )))

-- The pair that a message is sent with is the one of the keys.
or_intro-sending :
    (c : CorrespondentKeys) (sending : Option SendingPair) (key : Option JsonKey)
    → c.keys.sending_pair ≡ sending
    → IsNotOlder c (sending_pair_or_intro c key).0
      × ((p : SendingPair)
          → (sending_pair_or_intro c key).1 ≡ ok p
          → (sending_pair_or_intro c key).0.keys.sending_pair ≡ some p)
unfolding sending_pair_or_intro with_sending
or_intro-sending c none none e = rw (sending_pair_or_intro, e) (omega arith, λ p h. cc h)
or_intro-sending c none (some key) e =
    rw (sending_pair_or_intro, e) (omega arith, λ p h. ap some (ok_injective h))
or_intro-sending c (some q) key e =
    rw (sending_pair_or_intro, e) (rw e (omega arith), λ p h. e ∙ ap some (ok_injective h))

and_send-time :
    (g : Given) (i : ℕ) (r : CorrespondentKeys × Outcome KeyError SendingPair)
    → ((p : SendingPair) → r.1 ≡ ok p → r.0.keys.sending_pair ≡ some p)
    → IsNotOlder r.0 (and_send g i r).0
unfolding and_send send_with with_sending update_msg_count
and_send-time g i (c, throws e) h = omega arith
and_send-time g i (c, ok (intro key)) h = omega arith
and_send-time g i (c, ok (ratcheted p)) h = rw (h (ratcheted p) refl) (omega arith)

get_sending_pair-time :
    (c : CorrespondentKeys) (g : Given) (i : ℕ) (key : Option JsonKey)
    → IsNotOlder c (get_sending_pair c g i key).0
unfolding get_sending_pair
get_sending_pair-time c g i key =
    let (kept, sent) = or_intro-sending c c.keys.sending_pair key refl in
    omega (arith, kept, and_send-time g i (sending_pair_or_intro c key) sent)

KeysStep-time : {c d : CorrespondentKeys} → KeysStep c d → IsNotOlder c d
KeysStep-time {c} (suggests g) = suggest_pair-time c g c.keys.reception_pairs.suggested refl
KeysStep-time {c} (marks role) =
    mark_pair_as_in_use-time c role c.keys.reception_pairs.suggested refl
KeysStep-time {c} (ratchets g pair used) = ratchet_up-time c g pair used
KeysStep-time {c} (sends g i key) = get_sending_pair-time c g i key

-- Through any suggestions, marks, suggestions of the correspondent in any order, and messages, the
-- pair that messages are sent with never gets older: a suggestion that comes late does not bring
-- back keys from before a newer one, and no failed step drops the pair.
pub KeysReach-time :
    {c d : CorrespondentKeys}
    → KeysReach c d
    → sending_time c.keys.sending_pair ≤ sending_time d.keys.sending_pair
KeysReach-time here = omega arith
KeysReach-time (next r step) = omega (arith, KeysReach-time r, KeysStep-time step)

-- Messages that are sent one after another, each with the time and the index of its id.
pub send_all : CorrespondentKeys → List (Given × ℕ) → CorrespondentKeys
unfolding get_sending_pair
send_all c [] = c
send_all c ((g, i) ∷ rest) = send_all (get_sending_pair c g i none).0 rest

get_sending_pair-ratcheted :
    (c : CorrespondentKeys) (p : RatchetedSendingPair) (g : Given) (i : ℕ)
    → c.keys.sending_pair ≡ some (ratcheted p)
    → get_sending_pair c g i none ≡ send_with c g i (ratcheted p)
unfolding get_sending_pair and_send
get_sending_pair-ratcheted c p g i e = rw (get_sending_pair, sending_pair_or_intro, e) refl

-- What a message with this id of the pair and this number is sent with.
abbrev pub for_sending : ℕ → RatchetedSendingPair → ℕ → ForSending
for_sending pid p count = record {
  current_pair = by_pid pid;
  msg_master_key = p.msg_master_key;
  msg_count = count;
}

-- With a ratcheted pair of which `n` messages were sent, the message that follows on any others has
-- the number `n` and their count and one, and goes with one of the pair's ids: the numbers of
-- messages of a pair never repeat. The index of the id is to be one of the pair's.
pub get_sending_pair-send_all :
    (c : CorrespondentKeys) (p : RatchetedSendingPair) (sent : List (Given × ℕ)) (g : Given)
    (i pid n : ℕ)
    → c.keys.sending_pair ≡ some (ratcheted p)
    → count_after p.sent_msgs ≡ n + 1
    → get_elem? p.pids i ≡ some pid
    → (get_sending_pair (send_all c sent) g i none).1 ≡ ok (for_sending pid p (n + length sent + 1))
unfolding send_all send_with select_pid update_msg_count with_sending
get_sending_pair-send_all c p [] g i pid n e before id =
    rw (get_sending_pair-ratcheted c p g i e)
      (rw (send_with, id) (ap (λ (t : ℕ). ok (for_sending pid p t)) (omega (arith, before))))
get_sending_pair-send_all c p ((h, j) ∷ rest) g i pid n e before id =
    rw (get_sending_pair-ratcheted c p h j e) (
      get_sending_pair-send_all (with_sending c (ratcheted (update_msg_count p h.now).0))
        (update_msg_count p h.now).0 rest g i pid (n + 1) refl (omega (arith, before)) id
      ∙ ap (λ (t : ℕ). ok (for_sending pid p t)) (omega arith))
