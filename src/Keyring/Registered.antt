-- ===== src/Keyring/Registered.antt =====
-- How often an email is registered for an id, in the map of ts-code/core/keyring/id-to-email-map.ts.
use core_3nweb_client_lib.Base.{
  ℕ, ◌+◌, ◌-◌, ◌<◌, max, ◌≡◌, refl, arith, Bool, true, false, ◌&&◌, Option, none, some, List, [],
  ◌∷◌, ◌++◌, includes, ◌==◌, ==_iff, if◌then◌else◌, Bool-cases, inl, inr,
}
use core_3nweb_client_lib.Keyring.IdToEmail.{
  IdToEmailMap, get_emails, add_pair, spliced, remove_pair,
}

abbrev pub count_of : List ℕ → ℕ → ℕ
count_of [] e = 0
count_of (x ∷ xs) e = (if x == e then 1 else 0) + count_of xs e

abbrev count_in : Option (List ℕ) → ℕ → ℕ
count_in none e = 0
count_in (some emails) e = count_of emails e

unfoldable pub registered : IdToEmailMap → ℕ → ℕ → ℕ
unfolding get_emails
registered m id email = count_in (get_emails m id) email

count_of-includes : (xs : List ℕ) (e : ℕ) → includes xs e ≡ true → 0 < count_of xs e
count_of-includes [] e h = cc
count_of-includes (x ∷ xs) e h = ground (arith, count_of-includes xs e)

count_of-not_includes : (xs : List ℕ) (e : ℕ) → includes xs e ≡ false → count_of xs e ≡ 0
count_of-not_includes [] e h = refl
count_of-not_includes (x ∷ xs) e h = ground (arith, count_of-not_includes xs e)

count_of-append :
    (xs : List ℕ) (y e : ℕ) → count_of (xs ++ y ∷ []) e ≡ count_of xs e + (if y == e then 1 else 0)
count_of-append [] y e = omega arith
count_of-append (x ∷ xs) y e = omega (arith, count_of-append xs y e)

count_of-spliced :
    (xs : List ℕ) (y e : ℕ)
    → includes xs y ≡ true
    → count_of (spliced xs y) e ≡ count_of xs e - (if y == e then 1 else 0)
unfolding spliced
count_of-spliced [] y e h = cc
count_of-spliced (x ∷ xs) y e h = ground (arith, count_of-spliced xs y e, count_of-includes xs y)

abbrev pub same_pair : ℕ → ℕ → ℕ → ℕ → Bool
same_pair id email j f = id == j && email == f

-- An entry that is put in front.
registered-put :
    (m : IdToEmailMap) (id : ℕ) (emails : List ℕ) (j f : ℕ)
    → registered ((id, emails) ∷ m) j f ≡ (if id == j then count_of emails f else registered m j f)
unfolding registered get_emails
registered-put m id emails j f = elim (Bool-cases (id == j)) [
  | inl e ↦ rw e refl
  | inr e ↦ rw e refl
]

registered-emails :
    (m : IdToEmailMap) (id j f : ℕ) (o : Option (List ℕ))
    → (id == j) ≡ true
    → get_emails m id ≡ o
    → registered m j f ≡ count_in o f
unfolding registered
registered-emails m id j f o same e = rw (← (==_iff id j).0 same) (rw e refl)

pub registered-add_pair :
    (m : IdToEmailMap) (id email j f : ℕ)
    → registered (add_pair m id email).0 j f
      ≡ (if same_pair id email j f then max 1 (registered m j f) else registered m j f)
unfolding add_pair
registered-add_pair m id email j f = by_emails (get_emails m id) refl
  where
    by_emails :
        (o : Option (List ℕ))
        → get_emails m id ≡ o
        → registered (add_pair m id email).0 j f
          ≡ (if same_pair id email j f then max 1 (registered m j f) else registered m j f)
    by_emails none e =
        rw (add_pair, e)
          (rw (registered-put m id (email ∷ []) j f)
            (ground (arith, registered-emails m id j f none)))
    by_emails (some emails) e =
        rw (add_pair, e)
          (elim (Bool-cases (includes emails email)) [
            | inl h ↦ rw h (
                ground
                  (arith, registered-emails m id j f (some emails), count_of-includes emails email))
            | inr h ↦ rw h (
                rw (registered-put m id (emails ++ email ∷ []) j f) (
                  ground (
                    arith,
                    registered-emails m id j f (some emails),
                    count_of-append emails email f,
                    count_of-not_includes emails email,
                  )))
          ])

pub registered-remove_pair :
    (m : IdToEmailMap) (id email j f : ℕ)
    → registered (remove_pair m id email).0 j f
      ≡ (if same_pair id email j f then registered m j f - 1 else registered m j f)
unfolding remove_pair
registered-remove_pair m id email j f = by_emails (get_emails m id) refl
  where
    by_emails :
        (o : Option (List ℕ))
        → get_emails m id ≡ o
        → registered (remove_pair m id email).0 j f
          ≡ (if same_pair id email j f then registered m j f - 1 else registered m j f)
    by_emails none e = rw (remove_pair, e) (ground (arith, registered-emails m id j f none))
    by_emails (some emails) e =
        rw (remove_pair, e)
          (elim (Bool-cases (includes emails email)) [
            | inl h ↦ rw h (
                rw (registered-put m id (spliced emails email) j f) (
                  ground (
                    arith,
                    registered-emails m id j f (some emails),
                    count_of-spliced emails email f h,
                  )))
            | inr h ↦ rw h (
                ground (
                  arith,
                  registered-emails m id j f (some emails),
                  count_of-not_includes emails email,
                ))
          ])
