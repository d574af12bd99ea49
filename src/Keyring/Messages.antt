-- ===== src/Keyring/Messages.antt =====
-- The pairs that messages are sent and received with, of
-- ts-code/core/keyring/correspondent-keys.ts.
use core_3nweb_client_lib.Base.{
  ℕ, ◌+◌, Bool, true, false, ◌&&◌, Option, none, some, List, includes, ltb, ◌==◌, if◌then◌else◌,
  Outcome, ok, throws, ◌>>=◌, get_elem?,
}
use core_3nweb_client_lib.Keyring.{
  JsonKey, JwKeyPair, ReceptionPair, SentMsgs, RatchetedSendingPair, SendingPair, intro, ratcheted,
  ReceptionPairs, CorrespondentKeys, SuggestedNextKeyPair, MsgKeyRole, suggested_role, in_use_role,
  old_role, KeyError, no_sending_pair, no_intro_key, unknown_kid, no_pids, Given,
  calc_msg_master_key, Result,
}

abbrev has_kid : Option ReceptionPair → ℕ → Option JwKeyPair → Option JwKeyPair
has_kid none kid other = other
has_kid (some rp) kid other =
    if rp.recipient_key.skey.kid == kid then some rp.recipient_key else other

-- The fields are gone through in the order in which the constructor makes them.
pub find_reception_key : ReceptionPairs → ℕ → Outcome KeyError JwKeyPair
find_reception_key rp kid =
    elim (has_kid rp.suggested kid (has_kid rp.in_use kid (has_kid rp.old kid none))) [
      | none ↦ throws unknown_kid
      | some key ↦ ok key
    ]

abbrev pub is_truthy_flag : Option Bool → Bool
is_truthy_flag none = false
is_truthy_flag (some b) = b

-- The sender's key that a suggestion refers to.
pub sender_key_for :
    ReceptionPairs → SuggestedNextKeyPair → Option JwKeyPair → Outcome KeyError JwKeyPair
unfolding find_reception_key
sender_key_for rp pair used_published_intro =
    if is_truthy_flag pair.is_sender_intro_key
    then (elim used_published_intro [ none ↦ throws no_intro_key | some key ↦ ok key ])
    else find_reception_key rp pair.sender_kid

-- A suggestion is passed by when its keys are in use already, or when it is older.
unfoldable pub is_passed_by : Option SendingPair → SuggestedNextKeyPair → Bool
is_passed_by none pair = false
is_passed_by (some (intro key)) pair = false
is_passed_by (some (ratcheted p)) pair =
    if (p.recipient_pkey.k == pair.recipient_pkey.k) && (p.sender_key.pkey.kid == pair.sender_kid)
    then true
    else ltb pair.timestamp p.timestamp

abbrev pub ratcheted_to : SuggestedNextKeyPair → JwKeyPair → ℕ → SendingPair
ratcheted_to pair sender_key msg_master_key = ratcheted (record {
  pids = pair.pids;
  timestamp = pair.timestamp;
  sender_key = sender_key;
  recipient_pkey = pair.recipient_pkey;
  msg_master_key = msg_master_key;
  sent_msgs = none;
})

unfoldable pub with_sending : CorrespondentKeys → SendingPair → CorrespondentKeys
with_sending c p = record c { keys = record c.keys { sending_pair = some p } }

unfoldable pub set_from : CorrespondentKeys → Outcome KeyError SendingPair → Result (Unit {0})
unfolding with_sending
set_from c (throws e) = (c, throws e)
set_from c (ok p) = (with_sending c p, ok tt)

-- The sending pair that a suggestion makes.
unfoldable pub new_sending_pair :
    ReceptionPairs → Given → SuggestedNextKeyPair → Option JwKeyPair → Outcome KeyError SendingPair
unfolding sender_key_for calc_msg_master_key
new_sending_pair rp g pair used_published_intro =
    sender_key_for rp pair used_published_intro >>= λ sender_key.
    calc_msg_master_key g sender_key.skey pair.recipient_pkey >>= λ key.
    ok (ratcheted_to pair sender_key key)

unfoldable pub ratchet_up_sending_pair :
    CorrespondentKeys → Given → SuggestedNextKeyPair → Option JwKeyPair → Result (Unit {0})
unfolding is_passed_by new_sending_pair set_from
ratchet_up_sending_pair c g pair used_published_intro =
    if is_passed_by c.keys.sending_pair pair
    then (c, ok tt)
    else set_from c (new_sending_pair c.keys.reception_pairs g pair used_published_intro)

abbrev pub found_as :
    Option ReceptionPair
    → ℕ
    → MsgKeyRole
    → Option (ReceptionPair × MsgKeyRole)
    → Option (ReceptionPair × MsgKeyRole)
found_as none pid role other = other
found_as (some pair) pid role other = if includes pair.pids pid then some (pair, role) else other

unfoldable pub get_receiving_pair : ReceptionPairs → ℕ → Option (ReceptionPair × MsgKeyRole)
get_receiving_pair rp pid =
    found_as rp.suggested pid suggested_role
      (found_as rp.in_use pid in_use_role (found_as rp.old pid old_role none))

abbrev pub count_after : Option SentMsgs → ℕ
count_after none = 1
count_after (some sent) = sent.count + 1

-- `updateMsgCountInRatchetedSendingPair`
unfoldable pub update_msg_count : RatchetedSendingPair → ℕ → RatchetedSendingPair × ℕ
update_msg_count p now =
    let count = count_after p.sent_msgs in
    (record p { sent_msgs = some (record { count = count; last_ts = now }) }, count)

-- `selectPid`, with the index that `Math.random` gives.
unfoldable pub select_pid : RatchetedSendingPair → ℕ → Outcome KeyError ℕ
select_pid p i = elim (get_elem? p.pids i) [ none ↦ throws no_pids | some pid ↦ ok pid ]

-- `ASMailKeyPair`: a new sender's key with the id of the recipient's, or an id of a pair.
pub data CurrentPair : Type 0 where
  by_keys : (sender_pkey : JsonKey) (recipient_kid : ℕ) → CurrentPair
  by_pid : (pid : ℕ) → CurrentPair

pub record ForSending : Type 0 where
  pub current_pair : CurrentPair
  pub msg_master_key : ℕ
  pub msg_count : ℕ

-- The first message to a correspondent makes an introductory pair.
unfoldable pub sending_pair_or_intro :
    CorrespondentKeys → Option JsonKey → CorrespondentKeys × Outcome KeyError SendingPair
unfolding with_sending
sending_pair_or_intro c recipient_intro_pkey = elim c.keys.sending_pair [
  | some p ↦ (c, ok p)
  | none ↦ elim recipient_intro_pkey [
    | none ↦ (c, throws no_sending_pair)
    | some key ↦ (with_sending c (intro key), ok (intro key))
  ]
]

-- The message count is changed before an id is selected.
unfoldable pub send_with : CorrespondentKeys → Given → ℕ → SendingPair → Result ForSending
unfolding calc_msg_master_key update_msg_count select_pid with_sending
send_with c g i (intro key) = (
  c,
  calc_msg_master_key g g.new_key.skey key >>= λ master. ok (record {
    current_pair = by_keys g.new_key.pkey key.kid;
    msg_master_key = master;
    msg_count = 1;
  }),
)
send_with c g i (ratcheted p) =
    let (p', count) = update_msg_count p g.now in
    (
      with_sending c (ratcheted p'),
      select_pid p' i >>= λ pid. ok (record {
        current_pair = by_pid pid;
        msg_master_key = p.msg_master_key;
        msg_count = count;
      }),
    )

unfoldable pub and_send :
    Given → ℕ → CorrespondentKeys × Outcome KeyError SendingPair → Result ForSending
unfolding send_with
and_send g i (c, throws e) = (c, throws e)
and_send g i (c, ok p) = send_with c g i p

unfoldable pub get_sending_pair : CorrespondentKeys → Given → ℕ → Option JsonKey → Result ForSending
unfolding sending_pair_or_intro and_send
get_sending_pair c g i recipient_intro_pkey =
    and_send g i (sending_pair_or_intro c recipient_intro_pkey)

-- `ReceptionPairInfo`
pub record ReceptionPairInfo : Type 0 where
  pub pids : List ℕ
  pub timestamp : ℕ
  pub received_msgs : Option (List (List ℕ) × ℕ)
  pub is_sender_intro_key : Option Bool
  pub alg : ℕ
  pub recipient_kid : ℕ
  pub sender_kid : ℕ

pub turn_reception_pair_to_info : ReceptionPair → ReceptionPairInfo
turn_reception_pair_to_info rp = record {
  pids = rp.pids;
  timestamp = rp.timestamp;
  received_msgs = rp.received_msgs;
  is_sender_intro_key = rp.is_sender_intro_key;
  alg = rp.recipient_key.pkey.alg;
  recipient_kid = rp.recipient_key.pkey.kid;
  sender_kid = rp.sender_pkey.kid;
}

pub data SendingPairInfo : Type 0 where
  ratcheted_info :
      (recipient_kid sender_kid alg : ℕ) (pids : List ℕ) (timestamp : ℕ)
      (sent_msgs : Option SentMsgs)
      → SendingPairInfo
  intro_info : (recipient_kid alg : ℕ) → SendingPairInfo

pub turn_sending_pair_to_info : SendingPair → SendingPairInfo
turn_sending_pair_to_info (ratcheted p) =
    ratcheted_info p.recipient_pkey.kid p.sender_key.pkey.kid p.sender_key.pkey.alg p.pids
      p.timestamp p.sent_msgs
turn_sending_pair_to_info (intro key) = intro_info key.kid key.alg

pub record CorrespondentKeysInfo : Type 0 where
  pub sending_pair : Option SendingPairInfo
  pub in_use : Option ReceptionPairInfo
  pub old : Option ReceptionPairInfo
  pub suggested : Option ReceptionPairInfo

abbrev info_or_null : Option ReceptionPair → Option ReceptionPairInfo
unfolding turn_reception_pair_to_info
info_or_null none = none
info_or_null (some rp) = some (turn_reception_pair_to_info rp)

abbrev sending_info_or_null : Option SendingPair → Option SendingPairInfo
unfolding turn_sending_pair_to_info
sending_info_or_null none = none
sending_info_or_null (some sp) = some (turn_sending_pair_to_info sp)

unfoldable pub to_info : CorrespondentKeys → CorrespondentKeysInfo
unfolding info_or_null sending_info_or_null
to_info c = record {
  sending_pair = sending_info_or_null c.keys.sending_pair;
  in_use = info_or_null c.keys.reception_pairs.in_use;
  old = info_or_null c.keys.reception_pairs.old;
  suggested = info_or_null c.keys.reception_pairs.suggested;
}
