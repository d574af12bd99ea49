-- ===== src/Keyring/Runs.antt =====
-- Keys of ts-code/core/keyring/correspondent-keys.ts at concrete inputs.
use core_3nweb_client_lib.Base.{ℕ, ◌+◌, ◌*◌, ◌≡◌, refl, ◌≤◌, true, false, none, some, [], ◌∷◌, ok}
use core_3nweb_client_lib.Keyring.{
  JsonKey, ReceptionPair, RatchetedSendingPair, ratcheted, CorrespondentKeys, SuggestedNextKeyPair,
  suggested_role, Given, for_address, suggest_pair, mark_pair_as_in_use,
}
use core_3nweb_client_lib.Keyring.IdToEmail.{get_emails, add_pair, remove_pair}
use core_3nweb_client_lib.Keyring.Registered.{registered}
use core_3nweb_client_lib.Keyring.Messages.{ratchet_up_sending_pair, get_sending_pair}
use core_3nweb_client_lib.Keyring.Indexed.{
  KeysReach, here, next, suggests, marks, ratchets, sends, IsIndexed, KeysReach-IsIndexed,
}
use core_3nweb_client_lib.Keyring.Ratchet.{
  sending_time, for_sending, send_all, KeysReach-time, get_sending_pair-send_all,
}

abbrev key_of : ℕ → JsonKey
key_of n = record { alg = 1; kid = n; k = 100 + n }

-- Keys with this number, and two ids, at this time.
abbrev given_at : ℕ → ℕ → Given
given_at n now = record {
  new_key = record { pkey = key_of n; skey = key_of n };
  new_pids = (10 * n) ∷ (10 * n + 1) ∷ [];
  box_alg = 1;
  shared_key = λ (s : JsonKey) (p : JsonKey). some (s.k + p.k);
  now = now;
}

-- A new correspondent, to whom a message is sent, with a pair that is suggested.
abbrev suggested_keys : CorrespondentKeys
unfolding for_address get_sending_pair suggest_pair
suggested_keys =
    (suggest_pair (get_sending_pair (for_address 7 [] 0) (given_at 1 5) 0 (some (key_of 9))).0
      (given_at 2 6)).0

-- It is used, and the correspondent suggests a pair in return.
abbrev answer_pair : SuggestedNextKeyPair
answer_pair = record {
  pids = 90 ∷ 91 ∷ [];
  sender_kid = 2;
  recipient_pkey = key_of 8;
  is_sender_intro_key = some false;
  timestamp = 50;
}

abbrev ratcheted_keys : CorrespondentKeys
unfolding mark_pair_as_in_use ratchet_up_sending_pair suggested_keys
ratcheted_keys =
    (ratchet_up_sending_pair (mark_pair_as_in_use suggested_keys suggested_role) (given_at 3 60)
      answer_pair none).0

ratcheted_keys-KeysReach : KeysReach (for_address 7 [] 0) ratcheted_keys
unfolding ratcheted_keys suggested_keys
ratcheted_keys-KeysReach =
    next
      (next (next (next here (sends (given_at 1 5) 0 (some (key_of 9)))) (suggests (given_at 2 6)))
        (marks suggested_role))
      (ratchets (given_at 3 60) answer_pair none)

KeysReach-IsIndexed_example : IsIndexed ratcheted_keys
unfolding registered get_emails
KeysReach-IsIndexed_example = KeysReach-IsIndexed 7 0 [] (λ pid. refl) ratcheted_keys-KeysReach

KeysReach-time_example :
    sending_time (for_address 7 [] 0).keys.sending_pair
    ≤ sending_time ratcheted_keys.keys.sending_pair
KeysReach-time_example = KeysReach-time ratcheted_keys-KeysReach

-- The answer is sent with from now on.
answered_time : sending_time ratcheted_keys.keys.sending_pair ≡ 50
unfolding ratcheted_keys
answered_time = refl

-- The pair of the ratcheted keys, as it is now.
abbrev answered_with : RatchetedSendingPair
answered_with = record {
  pids = 90 ∷ 91 ∷ [];
  timestamp = 50;
  sender_key = record { pkey = key_of 2; skey = key_of 2 };
  recipient_pkey = key_of 8;
  msg_master_key = 210;
  sent_msgs = none;
}

answered : ratcheted_keys.keys.sending_pair ≡ some (ratcheted answered_with)
unfolding ratcheted_keys
answered = refl

get_sending_pair-send_all_example :
    (get_sending_pair
      (send_all ratcheted_keys ((given_at 4 61, 0) ∷ (given_at 4 62, 1) ∷ []))
      (given_at 4 63)
      1
      none).1
    ≡ ok (for_sending 91 answered_with 3)
get_sending_pair-send_all_example =
    get_sending_pair-send_all ratcheted_keys answered_with
      ((given_at 4 61, 0) ∷ (given_at 4 62, 1) ∷ []) (given_at 4 63) 1 91 0 answered refl refl

-- The pair that `given_at 2 6` makes for the intro key.
abbrev suggested_two : ReceptionPair
suggested_two = record {
  pids = 20 ∷ 21 ∷ [];
  recipient_key = record { pkey = key_of 2; skey = key_of 2 };
  is_sender_intro_key = some true;
  sender_pkey = key_of 9;
  msg_master_key = 211;
  received_msgs = none;
  timestamp = 6;
}

-- A removed id keeps an empty entry, so it is not told as unknown.
removed_id_is_known : get_emails (remove_pair (add_pair [] 1 2).0 1 2).0 1 ≡ some []
unfolding get_emails add_pair remove_pair
removed_id_is_known = refl
