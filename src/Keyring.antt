-- ===== src/Keyring.antt =====
-- The keys for one correspondent, of ts-code/core/keyring/correspondent-keys.ts, with the map from
-- ids of pairs to emails that the keyring indexes them in. Texts, such as ids and emails, are only
-- compared, and stand as numbers. Key generation, the calculation of a shared key, random numbers
-- and the clock are arguments.
pub mod IdToEmail
pub mod Messages
pub mod Registered
pub mod Indexed
pub mod Ratchet
mod Runs
use core_3nweb_client_lib.Base.{
  ℕ, zero, suc, ◌+◌, ◌*◌, Bool, true, false, not, ◌&&◌, ◌||◌, Option, none, some, List, [], ◌∷◌,
  map, includes, ltb, leb, ◌==◌, if◌then◌else◌, Outcome, ok, throws, ◌>>=◌, length, get_elem?,
}
use core_3nweb_client_lib.Keyring.IdToEmail.{IdToEmailMap, add_pair, add_pairs, remove_pair}

pub record JsonKey : Type 0 where
  pub alg : ℕ
  pub kid : ℕ
  pub k : ℕ

pub record JwKeyPair : Type 0 where
  pub pkey : JsonKey
  pub skey : JsonKey

pub record ReceptionPair : Type 0 where
  pub pids : List ℕ
  pub recipient_key : JwKeyPair
  pub is_sender_intro_key : Option Bool
  pub sender_pkey : JsonKey
  pub msg_master_key : ℕ
  pub received_msgs : Option (List (List ℕ) × ℕ)
  pub timestamp : ℕ

-- `sentMsgs` has a count and the time of the last message.
pub record SentMsgs : Type 0 where
  pub count : ℕ
  pub last_ts : ℕ

pub record RatchetedSendingPair : Type 0 where
  pub pids : List ℕ
  pub timestamp : ℕ
  pub sender_key : JwKeyPair
  pub recipient_pkey : JsonKey
  pub msg_master_key : ℕ
  pub sent_msgs : Option SentMsgs

pub data SendingPair : Type 0 where
  intro : (recipient_pkey : JsonKey) → SendingPair
  ratcheted : RatchetedSendingPair → SendingPair

pub record ReceptionPairs : Type 0 where
  pub suggested : Option ReceptionPair
  pub in_use : Option ReceptionPair
  pub old : Option ReceptionPair

pub record CorrespondentKeysJson : Type 0 where
  pub correspondent : ℕ
  pub sending_pair : Option SendingPair
  pub reception_pairs : ReceptionPairs

-- The keys with what they change in the keyring: its index, and how often it is told to save.
pub record CorrespondentKeys : Type 0 where
  pub keys : CorrespondentKeysJson
  pub pair_id_to_email_map : IdToEmailMap
  pub saves : ℕ

pub record SuggestedNextKeyPair : Type 0 where
  pub pids : List ℕ
  pub sender_kid : ℕ
  pub recipient_pkey : JsonKey
  pub is_sender_intro_key : Option Bool
  pub timestamp : ℕ

pub data MsgKeyRole : Type 0 where
  suggested_role in_use_role old_role : MsgKeyRole

pub data KeyError : Type 0 where
  no_sending_pair no_intro_key unknown_kid unsupported_alg bad_key no_pids : KeyError

abbrev pub min_period_for_pair : ℕ
min_period_for_pair = 15 * 60 * 1000

-- What a call is given from outside: a generated key pair with its ids, the shared key of a secret
-- and a public key, which may fail, and the time.
pub record Given : Type 0 where
  pub new_key : JwKeyPair
  pub new_pids : List ℕ
  pub box_alg : ℕ
  pub shared_key : JsonKey → JsonKey → Option ℕ
  pub now : ℕ

-- `calcMsgMasterKeyB64`
pub calc_msg_master_key : Given → JsonKey → JsonKey → Outcome KeyError ℕ
calc_msg_master_key g skey pkey =
    if skey.alg == g.box_alg
    then (elim (g.shared_key skey pkey) [ none ↦ throws bad_key | some key ↦ ok key ])
    else throws unsupported_alg

-- The constructor, for a new correspondent.
pub for_address : ℕ → IdToEmailMap → ℕ → CorrespondentKeys
for_address address index saves = record {
  keys = record {
    correspondent = address;
    sending_pair = none;
    reception_pairs = record { suggested = none; in_use = none; old = none };
  };
  pair_id_to_email_map = index;
  saves = saves;
}

abbrev pub pids_of : Option ReceptionPair → List ℕ
pids_of none = []
pids_of (some pair) = pair.pids

unfoldable pub map_all_keys_into_ring : CorrespondentKeys → CorrespondentKeys
unfolding add_pairs
map_all_keys_into_ring c =
    let rp = c.keys.reception_pairs in
    let email = c.keys.correspondent in
    record c {
      pair_id_to_email_map =
          add_pairs
            (add_pairs (add_pairs c.pair_id_to_email_map (pids_of rp.suggested) email)
              (pids_of rp.in_use) email)
            (pids_of rp.old) email;
    }

pub to_suggested_pair : ReceptionPair → SuggestedNextKeyPair
to_suggested_pair pair = record {
  pids = pair.pids;
  sender_kid = pair.sender_pkey.kid;
  recipient_pkey = pair.recipient_key.pkey;
  is_sender_intro_key = pair.is_sender_intro_key;
  timestamp = pair.timestamp;
}

pub should_suggest_new_pair : Option SendingPair → ℕ → Outcome KeyError Bool
should_suggest_new_pair none now = throws no_sending_pair
should_suggest_new_pair (some (intro key)) now = ok true
should_suggest_new_pair (some (ratcheted p)) now = elim p.sent_msgs [
  | none ↦ ok false
  | some sent ↦ ok (not (ltb now (p.timestamp + min_period_for_pair)))
]

abbrev pub recipient_pkey_of : SendingPair → JsonKey
recipient_pkey_of (intro key) = key
recipient_pkey_of (ratcheted p) = p.recipient_pkey

abbrev pub is_intro : SendingPair → Bool
is_intro (intro key) = true
is_intro (ratcheted p) = false

abbrev pub Result : Type 0 → Type 0
Result A = CorrespondentKeys × Outcome KeyError A

-- The pair that is generated to be suggested.
pub new_reception_pair : Given → SendingPair → ℕ → ReceptionPair
new_reception_pair g sending msg_master_key = record {
  pids = g.new_pids;
  recipient_key = g.new_key;
  is_sender_intro_key = some (is_intro sending);
  sender_pkey = recipient_pkey_of sending;
  msg_master_key = msg_master_key;
  received_msgs = none;
  timestamp = g.now;
}

pub with_suggested : CorrespondentKeys → ReceptionPair → CorrespondentKeys
unfolding add_pairs
with_suggested c pair = record {
  keys = record c.keys {
    reception_pairs = record c.keys.reception_pairs { suggested = some pair };
  };
  pair_id_to_email_map = add_pairs c.pair_id_to_email_map pair.pids c.keys.correspondent;
  saves = suc c.saves;
}

pub generate_suggested :
    CorrespondentKeys → Given → SendingPair → Result (Option SuggestedNextKeyPair)
unfolding calc_msg_master_key new_reception_pair with_suggested to_suggested_pair
generate_suggested c g sending =
    elim (calc_msg_master_key g g.new_key.skey (recipient_pkey_of sending)) [
      | throws e ↦ (c, throws e)
      | ok key ↦
          let pair = new_reception_pair g sending key in
          (with_suggested c pair, ok (some (to_suggested_pair pair)))
    ]

-- Whether a new pair is to be suggested, with the sending pair that it is made for.
abbrev pub when_to_suggest :
    CorrespondentKeys
    → Given
    → Option SendingPair
    → Outcome KeyError Bool
    → Result (Option SuggestedNextKeyPair)
unfolding generate_suggested
when_to_suggest c g sending (throws e) = (c, throws e)
when_to_suggest c g sending (ok false) = (c, ok none)
when_to_suggest c g none (ok true) = (c, throws no_sending_pair)
when_to_suggest c g (some sending) (ok true) = generate_suggested c g sending

pub suggest_pair : CorrespondentKeys → Given → Result (Option SuggestedNextKeyPair)
unfolding to_suggested_pair should_suggest_new_pair when_to_suggest
suggest_pair c g = elim c.keys.reception_pairs.suggested [
  | some pair ↦ (c, ok (some (to_suggested_pair pair)))
  | none ↦
      when_to_suggest c g c.keys.sending_pair (should_suggest_new_pair c.keys.sending_pair g.now)
]

-- The id is of one of the pairs.
abbrev pub is_held : ReceptionPairs → ℕ → Bool
is_held rp pid =
    includes (pids_of rp.suggested) pid
    || (includes (pids_of rp.in_use) pid || includes (pids_of rp.old) pid)

-- The ids of a dropped pair are taken out of the index, those of other pairs excepted. An id that
-- stands twice in `pids` is once in the set.
pub try_to_remove_pids_from_index : ReceptionPairs → ℕ → List ℕ → IdToEmailMap → IdToEmailMap
unfolding remove_pair
try_to_remove_pids_from_index rp email [] index = index
try_to_remove_pids_from_index rp email (pid ∷ pids) index =
    let rest = try_to_remove_pids_from_index rp email pids index in
    if is_held rp pid || includes pids pid then rest else (remove_pair rest pid email).0

-- After the suggested pair has become the one in use.
pub shift_pairs : CorrespondentKeys → ReceptionPair → CorrespondentKeys
unfolding try_to_remove_pids_from_index
shift_pairs c pair =
    let rp = c.keys.reception_pairs in
    elim rp.in_use [
      | none ↦ record c {
        keys = record c.keys {
          reception_pairs = record rp { suggested = none; in_use = some pair };
        };
      }
      | some mp ↦
          let rp' : ReceptionPairs = record {
            suggested = none;
            in_use = some pair;
            old = some mp;
          } in
          record c {
            keys = record c.keys { reception_pairs = rp' };
            pair_id_to_email_map =
                try_to_remove_pids_from_index rp' c.keys.correspondent (pids_of rp.old)
                  c.pair_id_to_email_map;
          }
    ]

-- `markPairAsInUse`. The pair is one of these keys, which the source compares as an object with the
-- suggested one, and is told here by its role.
pub mark_pair_as_in_use : CorrespondentKeys → MsgKeyRole → CorrespondentKeys
unfolding shift_pairs
mark_pair_as_in_use c in_use_role = c
mark_pair_as_in_use c old_role = c
mark_pair_as_in_use c suggested_role = elim c.keys.reception_pairs.suggested [
  | none ↦ c
  | some pair ↦ shift_pairs c pair
]
