-- ===== src/Versions/Garbage.antt =====
-- Which versions obj-info-file.ts spares from garbage collection.
use core_3nweb_client_lib.Base.{
  ℕ, zero, suc, ◌+◌, ◌<◌, ◌≡◌, ◌↔◌, ◌⊎◌, inl, inr, refl, sym, ap, ◌∙◌, subst, arith, true, false,
  List, [], ◌∷◌, includes, Option, none, some, Bool-cases,
}
use core_3nweb_client_lib.Base.NumMap.{NumMap, get}
use core_3nweb_client_lib.Versions.{
  VersionsInfo, is_archived_in, add_with_bases_loop, add_with_bases_to, add_all_with_bases_to,
  non_garbage_versions_in,
}
use core_3nweb_client_lib.Versions.Links.{IsLinked, Reach, start, onto_base, some_same}

-- Every base is smaller than what is built on it.
abbrev pub IsDown : NumMap → Type 0
IsDown links = (d b : ℕ) → get links d ≡ some b → b < d

-- A chain that begins one link further up.
Reach-from_base :
    (links : NumMap) (a b x : ℕ) → get links a ≡ some b → Reach links b x → Reach links a x
Reach-from_base links a b x e start = onto_base start e
Reach-from_base links a b x e (onto_base {x = y} r p) =
    onto_base (Reach-from_base links a b y e r) p

includes-cons_self : (x : ℕ) (xs : List ℕ) → includes (x ∷ xs) x ≡ true
includes-cons_self x xs = ground arith

includes-cons :
    (x y : ℕ) (xs : List ℕ) → includes (x ∷ xs) y ≡ true → (x ≡ y) ⊎ (includes xs y ≡ true)
includes-cons x y xs h = ground arith

includes-cons_of : (x y : ℕ) (xs : List ℕ) → includes xs y ≡ true → includes (x ∷ xs) y ≡ true
includes-cons_of x y xs h = ground arith

-- Where a set's members come from, for a version that may be missing.
abbrev ReachFrom : NumMap → Option ℕ → ℕ → Type 0
ReachFrom links none x = ⊥
ReachFrom links (some ver) x = Reach links ver x

one_up :
    (links : NumMap) (ver x : ℕ) (o : Option ℕ)
    → get links ver ≡ o
    → ReachFrom links o x
    → Reach links ver x
one_up links ver x none e r = absurd r
one_up links ver x (some b) e r = Reach-from_base links ver b x e r

-- Members of the result were in the set, or stand on the way down.
loop_sound :
    (fuel : ℕ) (set : List ℕ) (o : Option ℕ) (x : ℕ) (links : NumMap)
    → includes (add_with_bases_loop fuel set o links) x ≡ true
    → (includes set x ≡ true) ⊎ ReachFrom links o x
unfolding add_with_bases_loop
loop_sound zero set o x links h = inl h
loop_sound (suc f) set none x links h = inl h
loop_sound (suc f) set (some ver) x links h = elim (Bool-cases (includes set ver)) [
  | inl seen ↦ inl (rw seen at h)
  | inr new ↦ elim (loop_sound f (ver ∷ set) (get links ver) x links (rw new at h)) [
    | inl m ↦ elim (includes-cons ver x set m) [
      | inl e ↦ inr (subst (Reach links ver) e start)
      | inr old ↦ inl old
    ]
    | inr r ↦ inr (one_up links ver x (get links ver) refl r)
  ]
]

-- A set that holds the base of every member, but for one base that is still to come.
abbrev IsClosed : NumMap → Option ℕ → List ℕ → Type 0
IsClosed links pending set =
    (x y : ℕ)
    → includes set x ≡ true
    → get links x ≡ some y
    → (includes set y ≡ true) ⊎ (pending ≡ some y)

-- The result is closed, and holds the set and the version that was to come.
abbrev Completes : NumMap → List ℕ → Option ℕ → List ℕ → Type 0
Completes links set pending result =
    IsClosed links none result
    × ((x : ℕ) → includes set x ≡ true → includes result x ≡ true)
    × ((x : ℕ) → pending ≡ some x → includes result x ≡ true)

loop_complete :
    (fuel : ℕ) (set : List ℕ) (pending : Option ℕ) (links : NumMap)
    → IsDown links
    → ((n : ℕ) → pending ≡ some n → n + 1 < fuel)
    → IsClosed links pending set
    → Completes links set pending (add_with_bases_loop fuel set pending links)
unfolding add_with_bases_loop
loop_complete zero set none links down enough closed = (closed, λ x m. m, λ x e. cc)
loop_complete zero set (some n) links down enough closed = absurd (omega (arith, enough n refl))
loop_complete (suc f) set none links down enough closed = (closed, λ x m. m, λ x e. cc)
loop_complete (suc f) set (some ver) links down enough closed =
    elim (Bool-cases (includes set ver)) [
      | inl seen ↦ rw seen (
        (λ x y m e. elim (closed x y m e) [
          | inl old ↦ inl old
          | inr p ↦ inl (cc (ap (includes set) (some_same p)))
        ]),
        (λ x m. m),
        (λ x e. cc (ap (includes set) (some_same e))),
      )
      | inr new ↦
          let (shut, keeps, holds) =
            loop_complete f (ver ∷ set) (get links ver) links down
              (λ n e. omega (arith, down ver n e, enough ver refl))
              (λ x y m e. elim (includes-cons ver x set m) [
                | inl p ↦ inr (ap (get links) p ∙ e)
                | inr old ↦ elim (closed x y old e) [
                  | inl z ↦ inl (includes-cons_of ver y set z)
                  | inr q ↦ inl (
                      subst (λ t. includes (ver ∷ set) t ≡ true) (some_same q)
                        (includes-cons_self ver set))
                ]
              ]) in
          rw new (
            shut,
            (λ x m. keeps x (includes-cons_of ver x set m)),
            (λ x e. keeps x (
                subst (λ t. includes (ver ∷ set) t ≡ true) (some_same e)
                  (includes-cons_self ver set))),
          )
    ]

module _ (v : VersionsInfo) (down : IsDown v.diff_to_base) where
  with_bases_sound :
      (set : List ℕ) (o : Option ℕ) (x : ℕ)
      → includes (add_with_bases_to set o v) x ≡ true
      → (includes set x ≡ true) ⊎ ReachFrom v.diff_to_base o x
  unfolding add_with_bases_to
  with_bases_sound set none x h = inl h
  with_bases_sound set (some ver) x h = loop_sound (ver + 2) set (some ver) x v.diff_to_base h

  with_bases_complete :
      (set : List ℕ) (o : Option ℕ)
      → IsClosed v.diff_to_base none set
      → Completes v.diff_to_base set o (add_with_bases_to set o v)
  unfolding add_with_bases_to
  with_bases_complete set none closed = (closed, λ x m. m, λ x e. cc)
  with_bases_complete set (some ver) closed =
      loop_complete (ver + 2) set (some ver) v.diff_to_base down (λ n e. omega (arith, some_same e))
        (λ x y m e. elim (closed x y m e) [ inl old ↦ inl old | inr p ↦ absurd (ground arith) ])

  all_sound :
      (set vs : List ℕ) (x : ℕ)
      → includes (add_all_with_bases_to set vs v) x ≡ true
      → (includes set x ≡ true) ⊎ ((a : ℕ) × (includes vs a ≡ true) × Reach v.diff_to_base a x)
  unfolding add_all_with_bases_to
  all_sound set [] x h = inl h
  all_sound set (a ∷ vs) x h = elim (all_sound (add_with_bases_to set (some a) v) vs x h) [
    | inl m ↦ elim (with_bases_sound set (some a) x m) [
      | inl old ↦ inl old
      | inr r ↦ inr (a, includes-cons_self a vs, r)
    ]
    | inr (b, m, r) ↦ inr (b, includes-cons_of a b vs m, r)
  ]

  all_complete :
      (set vs : List ℕ)
      → IsClosed v.diff_to_base none set
      → IsClosed v.diff_to_base none (add_all_with_bases_to set vs v)
        × ((x : ℕ)
            → (includes set x ≡ true) ⊎ (includes vs x ≡ true)
            → includes (add_all_with_bases_to set vs v) x ≡ true)
  unfolding add_all_with_bases_to
  all_complete set [] closed = (closed, λ x m. elim m [ inl p ↦ p | inr p ↦ absurd (cc p) ])
  all_complete set (a ∷ vs) closed =
      let (shut, keeps, holds) = with_bases_complete set (some a) closed in
      let (shut', keeps') = all_complete (add_with_bases_to set (some a) v) vs shut in
      (
        shut',
        λ x m. elim m [
          | inl p ↦ keeps' x (inl (keeps x p))
          | inr p ↦ elim (includes-cons a x vs p) [
            | inl e ↦ keeps' x (inl (holds x (ap some e)))
            | inr q ↦ keeps' x (inr q)
          ]
        ],
      )

-- A closed set holds all that stands below its members.
closed_below :
    (links : NumMap) (set : List ℕ) (a x : ℕ)
    → IsClosed links none set
    → includes set a ≡ true
    → Reach links a x
    → includes set x ≡ true
closed_below links set a x closed m start = m
closed_below links set a x closed m (onto_base {x = y} r e) =
    elim (closed y x (closed_below links set a y closed m r) e) [
      | inl p ↦ p
      | inr q ↦ absurd (cc q)
    ]

-- What is never garbage by itself: the current version and the archived ones.
abbrev pub IsRoot : VersionsInfo → ℕ → Type 0
IsRoot v r = (v.current ≡ some r) ⊎ (is_archived_in v r ≡ true)

abbrev archived_list : Option (List ℕ) → List ℕ
archived_list none = []
archived_list (some vs) = vs

non_garbage_lem :
    (v : VersionsInfo)
    → non_garbage_versions_in v
      ≡ add_all_with_bases_to (add_with_bases_to [] v.current v) (archived_list v.archived) v
unfolding non_garbage_versions_in
non_garbage_lem v = ground arith

archived_in_list :
    (vs : Option (List ℕ)) (a : ℕ)
    → elim vs [ none ↦ false | some l ↦ includes l a ] ≡ includes (archived_list vs) a
archived_in_list none a = refl
archived_in_list (some l) a = refl

IsRoot-of_current :
    (v : VersionsInfo) (x : ℕ)
    → ReachFrom v.diff_to_base v.current x
    → (r : ℕ) × IsRoot v r × Reach v.diff_to_base r x
IsRoot-of_current v x h = go v.current refl h
  where
    go :
        (o : Option ℕ)
        → v.current ≡ o
        → ReachFrom v.diff_to_base o x
        → (r : ℕ) × IsRoot v r × Reach v.diff_to_base r x
    go none e r = absurd r
    go (some c) e r = (c, inl e, r)

-- On consistent links the versions that are spared are exactly the current version, the archived
-- ones, and all that these are built on, directly or through other versions.
pub non_garbage_versions_in-Reach :
    (v : VersionsInfo) (x : ℕ)
    → IsLinked v
    → (includes (non_garbage_versions_in v) x ≡ true)
      ↔ ((r : ℕ) × IsRoot v r × Reach v.diff_to_base r x)
non_garbage_versions_in-Reach v x h = (sound, complete)
  where
    from_current : List ℕ
    from_current = add_with_bases_to [] v.current v

    listed : List ℕ
    listed = archived_list v.archived

    sound :
        includes (non_garbage_versions_in v) x ≡ true
        → (r : ℕ) × IsRoot v r × Reach v.diff_to_base r x
    sound m = elim (all_sound v h.down from_current listed x (rw (non_garbage_lem v) at m)) [
      | inl p ↦ elim (with_bases_sound v h.down [] v.current x p) [
        | inl q ↦ absurd (cc q)
        | inr r ↦ IsRoot-of_current v x r
      ]
      | inr (a, p, r) ↦ (a, inr (archived_in_list v.archived a ∙ p), r)
    ]

    complete :
        (r : ℕ) × IsRoot v r × Reach v.diff_to_base r x
        → includes (non_garbage_versions_in v) x ≡ true
    complete (r, root, below) =
        let (shut, keeps, holds) =
          with_bases_complete v h.down [] v.current (λ a y p. absurd (cc p)) in
        let (shut', keeps') = all_complete v h.down from_current listed shut in
        let member : includes (add_all_with_bases_to from_current listed v) r ≡ true = elim root [
          | inl e ↦ keeps' r (inl (holds r e))
          | inr p ↦ keeps' r (inr (sym (archived_in_list v.archived r) ∙ p))
        ] in
        rw (non_garbage_lem v) (closed_below v.diff_to_base _ r x shut' member below)
