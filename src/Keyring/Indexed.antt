-- ===== src/Keyring/Indexed.antt =====
-- The index of ids of reception pairs, of ts-code/core/keyring/correspondent-keys.ts.
use core_3nweb_client_lib.Base.{
  ℕ, ◌-◌, max, ◌≡◌, refl, subst, arith, Bool, true, false, not, ◌&&◌, ◌||◌, Option, none, some,
  List, [], ◌∷◌, includes, ◌==◌, ==_refl, ==_iff, if◌then◌else◌, Outcome, ok, throws, Outcome-cases,
  inl, inr, if_cases,
}
use core_3nweb_client_lib.Keyring.IdToEmail.{IdToEmailMap, add_pair, add_pairs}
use core_3nweb_client_lib.Keyring.Registered.{
  registered, registered-add_pair, registered-remove_pair,
}
use core_3nweb_client_lib.Keyring.{
  ReceptionPair, ReceptionPairs, SendingPair, intro, ratcheted, Result, CorrespondentKeys,
  SuggestedNextKeyPair, JwKeyPair, JsonKey, MsgKeyRole, suggested_role, in_use_role, old_role,
  KeyError, Given, calc_msg_master_key, for_address, pids_of, should_suggest_new_pair,
  recipient_pkey_of, new_reception_pair, with_suggested, generate_suggested, when_to_suggest,
  suggest_pair, is_held, try_to_remove_pids_from_index, shift_pairs, mark_pair_as_in_use,
}
use core_3nweb_client_lib.Keyring.Messages.{
  ratchet_up_sending_pair, set_from, with_sending, is_passed_by, new_sending_pair, get_sending_pair,
  sending_pair_or_intro, and_send, send_with,
}

-- Adding ids for an email, as it is seen for any email.
pub registered-add_pairs :
    (m : IdToEmailMap) (ids : List ℕ) (email j f : ℕ)
    → registered (add_pairs m ids email) j f
      ≡ (if includes ids j && email == f then max 1 (registered m j f) else registered m j f)
unfolding add_pairs
registered-add_pairs m [] email j f = refl
registered-add_pairs m (id ∷ ids) email j f = ground (
  arith,
  registered-add_pairs (add_pair m id email).0 ids email j f,
  registered-add_pair m id email j f,
)

-- The two cases of an id of a dropped pair, by whether it is the id that is asked for, whether that
-- one is held and comes again, and whether the email is the one that is asked for.
kept_id :
    (same held again own : Bool) (count : ℕ) {rest : ℕ}
    → rest ≡ (if again && (not held && own) then count - 1 else count)
    → (same ≡ true → (held || again) ≡ true)
    → rest ≡ (if (same || again) && (not held && own) then count - 1 else count)
kept_id same held again own count ih kept = ground (arith, kept)

dropped_id :
    (same held again own : Bool) (count : ℕ) {rest now : ℕ}
    → rest ≡ (if again && (not held && own) then count - 1 else count)
    → now ≡ (if same && own then rest - 1 else rest)
    → (same ≡ true → (held || again) ≡ false)
    → now ≡ (if (same || again) && (not held && own) then count - 1 else count)
dropped_id same held again own count ih now gone = ground (arith, gone)

-- Ids of a dropped pair that another pair has stay.
pub registered-try_to_remove :
    (rp : ReceptionPairs) (email : ℕ) (pids : List ℕ) (m : IdToEmailMap) (j f : ℕ)
    → registered (try_to_remove_pids_from_index rp email pids m) j f ≡ (
        if includes pids j && (not (is_held rp j) && email == f)
        then registered m j f - 1
        else registered m j f)
unfolding try_to_remove_pids_from_index
registered-try_to_remove rp email [] m j f = refl
registered-try_to_remove rp email (pid ∷ pids) m j f =
    let rest = try_to_remove_pids_from_index rp email pids m in
    let ih = registered-try_to_remove rp email pids m j f in
    if_cases
      (λ (t : IdToEmailMap). registered t j f ≡ (
        if includes (pid ∷ pids) j && (not (is_held rp j) && email == f)
        then registered m j f - 1
        else registered m j f))
      (is_held rp pid || includes pids pid)
      (λ kept.
        kept_id (pid == j) (is_held rp j) (includes pids j) (email == f) (registered m j f) ih
          (λ same. rw (← (==_iff pid j).0 same) kept))
      (λ gone.
        dropped_id (pid == j) (is_held rp j) (includes pids j) (email == f) (registered m j f) ih
          (registered-remove_pair rest pid email j f) (λ same. rw (← (==_iff pid j).0 same) gone))

-- The index has an id for the correspondent once when the id is of one of the pairs, and else not.
abbrev pub IsIndexed : CorrespondentKeys → Type 0
IsIndexed c =
    (pid : ℕ)
    → registered c.pair_id_to_email_map pid c.keys.correspondent
      ≡ (if is_held c.keys.reception_pairs pid then 1 else 0)

for_address-IsIndexed :
    (address saves : ℕ) (m : IdToEmailMap)
    → ((pid : ℕ) → registered m pid address ≡ 0)
    → IsIndexed (for_address address m saves)
unfolding for_address
for_address-IsIndexed address saves m new pid = new pid

-- The index of an id, with the suggested pair as it is known.
as_held :
    (c : CorrespondentKeys) (pid : ℕ) (known : Option ReceptionPair)
    → c.keys.reception_pairs.suggested ≡ known
    → registered c.pair_id_to_email_map pid c.keys.correspondent
      ≡ (if is_held c.keys.reception_pairs pid then 1 else 0)
    → registered c.pair_id_to_email_map pid c.keys.correspondent ≡ (
        if includes (pids_of known) pid
          || (includes (pids_of c.keys.reception_pairs.in_use) pid
              || includes (pids_of c.keys.reception_pairs.old) pid)
        then 1
        else 0)
as_held c pid known e h =
    subst
      (λ (t : Option ReceptionPair). registered c.pair_id_to_email_map pid c.keys.correspondent ≡ (
        if includes (pids_of t) pid
          || (includes (pids_of c.keys.reception_pairs.in_use) pid
              || includes (pids_of c.keys.reception_pairs.old) pid)
        then 1
        else 0))
      e h

-- A new suggested pair, where there is none.
with_suggested-IsIndexed :
    (c : CorrespondentKeys) (pair : ReceptionPair)
    → c.keys.reception_pairs.suggested ≡ none
    → IsIndexed c
    → IsIndexed (with_suggested c pair)
unfolding with_suggested
with_suggested-IsIndexed c pair no_suggested h pid =
    let own = c.keys.correspondent in
    rw (registered-add_pairs c.pair_id_to_email_map pair.pids own pid own)
      (rw (==_refl own) (ground (arith, as_held c pid none no_suggested (h pid))))

generate_suggested-IsIndexed :
    (c : CorrespondentKeys) (g : Given) (sending : SendingPair)
    → c.keys.reception_pairs.suggested ≡ none
    → IsIndexed c
    → IsIndexed (generate_suggested c g sending).0
unfolding generate_suggested
generate_suggested-IsIndexed c g sending no_suggested h =
    elim (Outcome-cases (calc_msg_master_key g g.new_key.skey (recipient_pkey_of sending))) [
      | inl r ↦
          rw (generate_suggested, r.1)
            (with_suggested-IsIndexed c (new_reception_pair g sending r.0) no_suggested h)
      | inr r ↦ rw (generate_suggested, r.1) h
    ]

when_to_suggest-IsIndexed :
    (c : CorrespondentKeys) (g : Given) (sending : Option SendingPair) (due : Outcome KeyError Bool)
    → c.keys.reception_pairs.suggested ≡ none
    → IsIndexed c
    → IsIndexed (when_to_suggest c g sending due).0
unfolding when_to_suggest
when_to_suggest-IsIndexed c g sending (throws e) no_suggested h = h
when_to_suggest-IsIndexed c g sending (ok false) no_suggested h = h
when_to_suggest-IsIndexed c g none (ok true) no_suggested h = h
when_to_suggest-IsIndexed c g (some sending) (ok true) no_suggested h =
    generate_suggested-IsIndexed c g sending no_suggested h

suggest_pair-IsIndexed :
    (c : CorrespondentKeys) (g : Given) → IsIndexed c → IsIndexed (suggest_pair c g).0
unfolding suggest_pair
suggest_pair-IsIndexed c g h = by_suggested c.keys.reception_pairs.suggested refl
  where
    by_suggested :
        (o : Option ReceptionPair)
        → c.keys.reception_pairs.suggested ≡ o
        → IsIndexed (suggest_pair c g).0
    by_suggested none e =
        rw (suggest_pair, e)
          (when_to_suggest-IsIndexed c g c.keys.sending_pair
            (should_suggest_new_pair c.keys.sending_pair g.now) e h)
    by_suggested (some pair) e = rw (suggest_pair, e) h

shift_pairs-IsIndexed :
    (c : CorrespondentKeys) (pair : ReceptionPair) (mp : Option ReceptionPair)
    → c.keys.reception_pairs.suggested ≡ some pair
    → c.keys.reception_pairs.in_use ≡ mp
    → IsIndexed c
    → IsIndexed (shift_pairs c pair)
unfolding shift_pairs
shift_pairs-IsIndexed c pair none e none_in_use h pid =
    let old = as_held c pid (some pair) e (h pid) in
    rw (shift_pairs, none_in_use) (rw none_in_use at old)
shift_pairs-IsIndexed c pair (some mp) e one_in_use h pid =
    let old = as_held c pid (some pair) e (h pid) in
    rw (shift_pairs, one_in_use)
      (rw
        (registered-try_to_remove (record { suggested = none; in_use = some pair; old = some mp })
          c.keys.correspondent (pids_of c.keys.reception_pairs.old) c.pair_id_to_email_map pid
          c.keys.correspondent)
        (rw (==_refl c.keys.correspondent) (ground (arith, rw one_in_use at old))))

mark_pair_as_in_use-IsIndexed :
    (c : CorrespondentKeys) (role : MsgKeyRole)
    → IsIndexed c
    → IsIndexed (mark_pair_as_in_use c role)
unfolding mark_pair_as_in_use
mark_pair_as_in_use-IsIndexed c in_use_role h = h
mark_pair_as_in_use-IsIndexed c old_role h = h
mark_pair_as_in_use-IsIndexed c suggested_role h =
    by_suggested c.keys.reception_pairs.suggested refl
  where
    by_suggested :
        (o : Option ReceptionPair)
        → c.keys.reception_pairs.suggested ≡ o
        → IsIndexed (mark_pair_as_in_use c suggested_role)
    by_suggested none e = rw (mark_pair_as_in_use, e) h
    by_suggested (some pair) e =
        rw (mark_pair_as_in_use, e)
          (shift_pairs-IsIndexed c pair c.keys.reception_pairs.in_use e refl h)

-- What is done with the keys of a correspondent.
pub data KeysStep (c : CorrespondentKeys) : CorrespondentKeys → Type 0 where
  suggests : (g : Given) → KeysStep c (suggest_pair c g).0
  marks : (role : MsgKeyRole) → KeysStep c (mark_pair_as_in_use c role)
  ratchets :
      (g : Given) (pair : SuggestedNextKeyPair) (used : Option JwKeyPair)
      → KeysStep c (ratchet_up_sending_pair c g pair used).0
  sends :
      (g : Given) (i : ℕ) (recipient_intro_pkey : Option JsonKey)
      → KeysStep c (get_sending_pair c g i recipient_intro_pkey).0

pub data KeysReach (c : CorrespondentKeys) : CorrespondentKeys → Type 0 where
  here : KeysReach c c
  next : {d e : CorrespondentKeys} → KeysReach c d → KeysStep d e → KeysReach c e

-- Sending leaves the reception pairs and the index as they are.
set_from-IsIndexed :
    (c : CorrespondentKeys) (m : Outcome KeyError SendingPair)
    → IsIndexed c
    → IsIndexed (set_from c m).0
unfolding set_from with_sending
set_from-IsIndexed c (throws e) h = h
set_from-IsIndexed c (ok p) h = h

ratchet_up-IsIndexed :
    (c : CorrespondentKeys) (g : Given) (pair : SuggestedNextKeyPair) (used : Option JwKeyPair)
    → IsIndexed c
    → IsIndexed (ratchet_up_sending_pair c g pair used).0
unfolding ratchet_up_sending_pair
ratchet_up-IsIndexed c g pair used h =
    if_cases (λ (r : Result (Unit {0})). IsIndexed r.0) (is_passed_by c.keys.sending_pair pair)
      (λ _. h) (λ _. set_from-IsIndexed c (new_sending_pair c.keys.reception_pairs g pair used) h)

or_intro-IsIndexed :
    (c : CorrespondentKeys) (sending : Option SendingPair) (key : Option JsonKey)
    → c.keys.sending_pair ≡ sending
    → IsIndexed c
    → IsIndexed (sending_pair_or_intro c key).0
unfolding sending_pair_or_intro with_sending
or_intro-IsIndexed c none none e h = rw (sending_pair_or_intro, e) h
or_intro-IsIndexed c none (some key) e h = rw (sending_pair_or_intro, e) h
or_intro-IsIndexed c (some p) key e h = rw (sending_pair_or_intro, e) h

and_send-IsIndexed :
    (g : Given) (i : ℕ) (r : CorrespondentKeys × Outcome KeyError SendingPair)
    → IsIndexed r.0
    → IsIndexed (and_send g i r).0
unfolding and_send send_with with_sending
and_send-IsIndexed g i (c, throws e) h = h
and_send-IsIndexed g i (c, ok (intro key)) h = h
and_send-IsIndexed g i (c, ok (ratcheted p)) h = h

get_sending_pair-IsIndexed :
    (c : CorrespondentKeys) (g : Given) (i : ℕ) (key : Option JsonKey)
    → IsIndexed c
    → IsIndexed (get_sending_pair c g i key).0
unfolding get_sending_pair
get_sending_pair-IsIndexed c g i key h =
    and_send-IsIndexed g i (sending_pair_or_intro c key)
      (or_intro-IsIndexed c c.keys.sending_pair key refl h)

KeysStep-IsIndexed : {c d : CorrespondentKeys} → KeysStep c d → IsIndexed c → IsIndexed d
KeysStep-IsIndexed {c} (suggests g) h = suggest_pair-IsIndexed c g h
KeysStep-IsIndexed {c} (marks role) h = mark_pair_as_in_use-IsIndexed c role h
KeysStep-IsIndexed {c} (ratchets g pair used) h = ratchet_up-IsIndexed c g pair used h
KeysStep-IsIndexed {c} (sends g i key) h = get_sending_pair-IsIndexed c g i key h

-- From a new correspondent, whose email the index does not have, through any suggestions of pairs,
-- marks of a pair as in use, suggestions of the correspondent and messages to it, with any ids that
-- are generated: the index has an id for this email once when the id is of the suggested pair, of
-- the one in use or of the old one, and not at all when it is of none of them.
pub KeysReach-IsIndexed :
    (address saves : ℕ) (m : IdToEmailMap) {c : CorrespondentKeys}
    → ((pid : ℕ) → registered m pid address ≡ 0)
    → KeysReach (for_address address m saves) c
    → IsIndexed c
KeysReach-IsIndexed address saves m new here = for_address-IsIndexed address saves m new
KeysReach-IsIndexed address saves m new (next r step) =
    KeysStep-IsIndexed step (KeysReach-IsIndexed address saves m new r)
