-- ===== src/Keyring/IdToEmail.antt =====
-- The class `IdToEmailMap` of ts-code/core/keyring/id-to-email-map.ts. Ids and emails are only
-- compared, and stand as numbers.
use core_3nweb_client_lib.Base.{
  ℕ, Bool, true, false, Option, none, some, List, [], ◌∷◌, ◌++◌, includes, ◌==◌, if◌then◌else◌,
}

-- A later entry of an id stands in front of an earlier one.
abbrev pub IdToEmailMap : Type 0
IdToEmailMap = List (ℕ × List ℕ)

-- `getEmails`, and `Map.get`
unfoldable pub get_emails : IdToEmailMap → ℕ → Option (List ℕ)
get_emails [] id = none
get_emails ((i, emails) ∷ m) id = if i == id then some emails else get_emails m id

-- `addPair`
abbrev added : IdToEmailMap → ℕ → ℕ → Option (List ℕ) → IdToEmailMap × Bool
added m id email none = ((id, email ∷ []) ∷ m, true)
added m id email (some emails) =
    if includes emails email then (m, false) else ((id, emails ++ email ∷ []) ∷ m, true)

unfoldable pub add_pair : IdToEmailMap → ℕ → ℕ → IdToEmailMap × Bool
unfolding get_emails
add_pair m id email = added m id email (get_emails m id)

unfoldable pub add_pairs : IdToEmailMap → List ℕ → ℕ → IdToEmailMap
unfolding add_pair
add_pairs m [] email = m
add_pairs m (id ∷ ids) email = add_pairs (add_pair m id email).0 ids email

-- `emails.splice(emailInd, 1)`: the array without the first email that is equal.
unfoldable pub spliced : List ℕ → ℕ → List ℕ
spliced [] email = []
spliced (e ∷ emails) email =
    let rest = spliced emails email in if e == email then emails else e ∷ rest

-- `removePair`. What `splice` gives is the array of the one removed email, which is assigned to
-- `emails` and is never empty, so no id is ever deleted.
abbrev removed : IdToEmailMap → ℕ → ℕ → Option (List ℕ) → IdToEmailMap × Bool
unfolding spliced
removed m id email none = (m, false)
removed m id email (some emails) =
    if includes emails email then ((id, spliced emails email) ∷ m, true) else (m, false)

unfoldable pub remove_pair : IdToEmailMap → ℕ → ℕ → IdToEmailMap × Bool
unfolding get_emails removed
remove_pair m id email = removed m id email (get_emails m id)

unfoldable pub remove_pairs : IdToEmailMap → List ℕ → ℕ → IdToEmailMap
unfolding remove_pair
remove_pairs m [] email = m
remove_pairs m (id ∷ ids) email = remove_pairs (remove_pair m id email).0 ids email
