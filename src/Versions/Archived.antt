-- ===== src/Versions/Archived.antt =====
-- Which versions are archived after `addArchived` of
-- ts-code/core/storage/common/obj-info-file.ts.
use core_3nweb_client_lib.Base.{
  ℕ, suc, ◌≡◌, ◌∙◌, refl, sym, ==_iff, ap, Bool, true, false, ◌||◌, Option, none, some, List, [],
  ◌∷◌, ◌++◌, includes, ◌==◌, if_cases, Bool-cases, inl, inr,
}
use core_3nweb_client_lib.Versions.{
  VersionsInfo, is_archived_in, text_lt, decimal_from, insert_by_text, sort_by_text, add_to_list,
  add_archived,
}

includes-insert_by_text :
    (x : ℕ) (ys : List ℕ) (z : ℕ) → includes (insert_by_text x ys) z ≡ ((x == z) || includes ys z)
unfolding insert_by_text
includes-insert_by_text x [] z = refl
includes-insert_by_text x (y ∷ ys) z =
    if_cases (λ (t : List ℕ). includes t z ≡ ((x == z) || ((y == z) || includes ys z)))
      (text_lt (decimal_from (suc x) x []) (decimal_from (suc y) y [])) {x = x ∷ y ∷ ys}
      {y = y ∷ insert_by_text x ys} (λ _. refl)
      (λ _.
        ap (◌||◌ (y == z)) (includes-insert_by_text x ys z)
        ∙ swapped (y == z) (x == z) (includes ys z))
  where
    swapped : (a b c : Bool) → (a || (b || c)) ≡ (b || (a || c))
    swapped true true c = refl
    swapped true false c = refl
    swapped false b c = refl

or_false : (b : Bool) → (b || false) ≡ b
or_false true = refl
or_false false = refl

includes-sort_by_text :
    (sorted xs : List ℕ) (z : ℕ)
    → includes (sort_by_text sorted xs) z ≡ (includes sorted z || includes xs z)
unfolding sort_by_text
includes-sort_by_text sorted [] z = sym (or_false (includes sorted z))
includes-sort_by_text sorted (x ∷ xs) z =
    includes-sort_by_text (insert_by_text x sorted) xs z
    ∙ ap (λ (t : Bool). t || includes xs z) (includes-insert_by_text x sorted z)
    ∙ moved (x == z) (includes sorted z) (includes xs z)
  where
    moved : (a b c : Bool) → ((a || b) || c) ≡ (b || (a || c))
    moved true true c = refl
    moved true false c = refl
    moved false b c = refl

includes-append :
    (xs ys : List ℕ) (z : ℕ) → includes (xs ++ ys) z ≡ (includes xs z || includes ys z)
includes-append [] ys z = refl
includes-append (x ∷ xs) ys z =
    ap (◌||◌ (x == z)) (includes-append xs ys z) ∙ grouped (x == z) (includes xs z) (includes ys z)
  where
    grouped : (a b c : Bool) → (a || (b || c)) ≡ ((a || b) || c)
    grouped true b c = refl
    grouped false b c = refl

already_there :
    (vs : List ℕ) (version z : ℕ)
    → includes vs version ≡ true
    → includes vs z ≡ (includes vs z || (version == z))
already_there vs version z h = elim (Bool-cases (version == z)) [
  | inl same ↦
      let there : includes vs z ≡ true = ap (includes vs) (sym ((==_iff version z).0 same)) ∙ h in
      rw there refl
  | inr other ↦ rw other (sym (or_false (includes vs z)))
]

add_to_list-includes :
    (vs : Option (List ℕ)) (v : VersionsInfo) (version z : ℕ)
    → v.archived ≡ vs
    → is_archived_in (add_to_list vs v version).0 z ≡ (is_archived_in v z || (version == z))
unfolding add_to_list
add_to_list-includes none v version z e =
    rw e (includes-sort_by_text [] (version ∷ []) z ∙ or_false (version == z))
add_to_list-includes (some vs) v version z e = rw e (
    if_cases (λ (r : VersionsInfo × Bool). is_archived_in r.0 z ≡ (includes vs z || (version == z)))
      (includes vs version) (λ there. already_there vs version z there)
      (λ _.
        includes-sort_by_text [] (vs ++ (version ∷ [])) z
        ∙ includes-append vs (version ∷ []) z
        ∙ ap (◌||◌ (includes vs z)) (or_false (version == z))))

-- A version that is added is archived, and so is what was archived before it, and nothing else.
pub add_archived-is_archived_in :
    (v : VersionsInfo) (version z : ℕ)
    → is_archived_in (add_archived v version).0 z ≡ (is_archived_in v z || (version == z))
unfolding add_archived
add_archived-is_archived_in v version z = add_to_list-includes v.archived v version z refl
