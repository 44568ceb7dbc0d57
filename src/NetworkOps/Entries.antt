-- ===== src/NetworkOps/Entries.antt =====
-- What the loops over the entries do to the identifiers.
pub mod Changes
use ur_webif.Base.{
  ℕ, zero, suc, ◌+◌, ◌<◌, Bool, true, false, Option, none, some, List, [], ◌∷◌, ◌++◌, Bytes, codes,
  ◌≡◌, ◌≢◌, refl, sym, ◌∙◌, ap, arith, length, take, drop, eqb, eqb_iff, eqb_refl, if◌then◌else◌,
  Bool-cases, inl, inr, ◌||◌, not, is_some,
}
use ur_webif.Json.{Attempt, Attempt-cases, Gives, done, threw, JsonLibrary, JsonLaws}
use ur_webif.NetworkOps.Kind.{Kind}
use ur_webif.NetworkOps.Store.{World}
use ur_webif.NetworkOps.Rules.{
  step, change_first, find_id, merge_items, set_status, update_entry, toggle_from, toggle_entry,
  status_of_member, new_entry, stop_at, status, later,
}
use ur_webif.NetworkOps.Documents.{IsEntry, Entries, IsTable}

-- Strings that the test tells apart.
pub eqb_not : (a b : Bytes) → eqb a b ≡ false → a ≢ b
eqb_not a b e h = ground (arith, (eqb_iff a b).1 h)

-- The position of the first occurrence.
abbrev pub position : Bytes → List Bytes → Option ℕ
position id [] = none
position id (x ∷ ids) =
    if eqb x id then some 0 else elim (position id ids) [ none ↦ none | some i ↦ some (suc i) ]

-- The list without the first occurrence.
abbrev pub remove_first : Bytes → List Bytes → List Bytes
remove_first id [] = []
remove_first id (x ∷ ids) = if eqb x id then ids else x ∷ remove_first id ids

is_some-next : (i : Option ℕ) → is_some (elim i [ none ↦ none | some j ↦ some (suc j) ]) ≡ is_some i
is_some-next none = refl
is_some-next (some i) = refl

occurs-absurd :
    (x id : Bytes) (ids : List Bytes)
    → eqb x id ≡ true
    → is_some (position id (x ∷ ids)) ≡ false
    → ⊥
occurs-absurd x id ids found h = ground (arith, rw found at h)

absent-rest :
    (x id : Bytes) (ids : List Bytes)
    → eqb x id ≡ false
    → is_some (position id (x ∷ ids)) ≡ false
    → is_some (position id ids) ≡ false
absent-rest x id ids other h = sym (is_some-next (position id ids)) ∙ rw other at h

pub remove_first-absent :
    (id : Bytes) (ids : List Bytes) → is_some (position id ids) ≡ false → remove_first id ids ≡ ids
remove_first-absent id [] h = refl
remove_first-absent id (x ∷ ids) h = elim (Bool-cases (eqb x id)) [
  | inl found ↦ elim (occurs-absurd x id ids found h) [ ]
  | inr other ↦ rw other (ap (◌∷◌ x) (remove_first-absent id ids (absent-rest x id ids other h)))
]

pub remove_first-append :
    (id : Bytes) (ids : List Bytes)
    → is_some (position id ids) ≡ false
    → remove_first id (ids ++ id ∷ []) ≡ ids
remove_first-append id [] h = rw (eqb_refl id) refl
remove_first-append id (x ∷ ids) h = elim (Bool-cases (eqb x id)) [
  | inl found ↦ elim (occurs-absurd x id ids found h) [ ]
  | inr other ↦ rw other (ap (◌∷◌ x) (remove_first-append id ids (absent-rest x id ids other h)))
]

pub is_some-append : (id : Bytes) (ids : List Bytes) → is_some (position id (ids ++ id ∷ [])) ≡ true
is_some-append id [] = rw (eqb_refl id) refl
is_some-append id (x ∷ ids) = elim (Bool-cases (eqb x id)) [
  | inl found ↦ rw found refl
  | inr other ↦ rw other (is_some-next (position id (ids ++ id ∷ [])) ∙ is_some-append id ids)
]

module _ {J : Type 0} (lib : JsonLibrary J) where
  -- A change of an entry that leaves its identifier, also when it throws.
  abbrev pub KeepsId : (J → J × Attempt (Unit {0})) → Type 0
  KeepsId change = (e : J) (id : Bytes) → IsEntry lib e id → IsEntry lib ((change e).0) id

  pub Entries-length :
      (es : List J) (ids : List Bytes) → Entries lib es ids → length es ≡ length ids
  Entries-length [] [] h = refl
  Entries-length [] (x ∷ ids) h = elim h [ ]
  Entries-length (e ∷ es) [] h = elim h [ ]
  Entries-length (e ∷ es) (x ∷ ids) h = ap suc (Entries-length es ids h.1)

  later-done :
      (e : J) (es : List J) (i : Option ℕ)
      → later lib e (es, done i) ≡ (e ∷ es, done (elim i [ none ↦ none | some j ↦ some (suc j) ]))
  later-done e es none = refl
  later-done e es (some i) = refl

  Entries-append :
      (es : List J) (ids : List Bytes) (e : J) (id : Bytes)
      → Entries lib es ids
      → IsEntry lib e id
      → Entries lib (es ++ e ∷ []) (ids ++ id ∷ [])
  Entries-append [] [] e id h entry = (entry, tt)
  Entries-append [] (x ∷ ids) e id h entry = elim h [ ]
  Entries-append (y ∷ es) [] e id h entry = elim h [ ]
  Entries-append (y ∷ es) (x ∷ ids) e id h entry = (h.0, Entries-append es ids e id h.1 entry)

  stop_at-Entries :
      (r : J × Attempt (Unit {0})) (x : Bytes) (es : List J) (ids : List Bytes)
      → IsEntry lib r.0 x
      → Entries lib es ids
      → Entries lib ((stop_at lib r es).0) (x ∷ ids)
  stop_at-Entries (e, done u) x es ids entry h = (entry, h)
  stop_at-Entries (e, threw m) x es ids entry h = (entry, h)

  -- What taking the element at the position out leaves, if there is a position.
  abbrev pub Leaves : List J → List Bytes → Option ℕ → Type 0
  Leaves es rest none = Unit
  Leaves es rest (some i) = (i < length es) × Entries lib (take i es ++ drop (suc i) es) rest

  Leaves-cons :
      (e : J) (x : Bytes) (es : List J) (rest : List Bytes) (i : Option ℕ)
      → IsEntry lib e x
      → Leaves es rest i
      → Leaves (e ∷ es) (x ∷ rest) (elim i [ none ↦ none | some j ↦ some (suc j) ])
  Leaves-cons e x es rest none entry h = tt
  Leaves-cons e x es rest (some i) entry h = (omega (arith, h.0), (entry, h.1))

  pub remove_first-Entries :
      (id : Bytes) (es : List J) (ids : List Bytes)
      → Entries lib es ids
      → Leaves es (remove_first id ids) (position id ids)
  remove_first-Entries id [] [] h = tt
  remove_first-Entries id [] (x ∷ ids) h = elim h [ ]
  remove_first-Entries id (e ∷ es) [] h = elim h [ ]
  remove_first-Entries id (e ∷ es) (x ∷ ids) h =
      elim (Bool-cases (eqb x id))
        as (λ _. Leaves (e ∷ es) (remove_first id (x ∷ ids)) (position id (x ∷ ids))) [
          | inl found ↦ rw found (omega arith, h.1)
          | inr other ↦ rw other (
              Leaves-cons e x es (remove_first id ids) (position id ids) h.0
                (remove_first-Entries id es ids h.1))
        ]

  module _ (laws : JsonLaws lib) where
    pub change_first-Entries :
        (change : J → J × Attempt (Unit {0})) (id : Bytes) (es : List J) (ids : List Bytes)
        → KeepsId change
        → Entries lib es ids
        → Entries lib ((change_first lib change id es).0) ids
    unfolding change_first
    change_first-Entries change id [] [] keeps h = h
    change_first-Entries change id [] (x ∷ ids) keeps h = elim h [ ]
    change_first-Entries change id (e ∷ es) [] keeps h = elim h [ ]
    change_first-Entries change id (e ∷ es) (x ∷ ids) keeps h =
        rw (change_first, h.0, laws.equals-text x id)
          (elim (Bool-cases (eqb x id)) [
            | inl found ↦ rw found (stop_at-Entries (change e) x es ids (keeps e x h.0) h.1)
            | inr other ↦ rw other (h.0, change_first-Entries change id es ids keeps h.1)
          ])

    pub find_id-Entries :
        (id : Bytes) (es : List J) (ids : List Bytes)
        → Entries lib es ids
        → find_id lib id es ≡ (es, done (position id ids))
    unfolding find_id
    find_id-Entries id [] [] h = refl
    find_id-Entries id [] (x ∷ ids) h = elim h [ ]
    find_id-Entries id (e ∷ es) [] h = elim h [ ]
    find_id-Entries id (e ∷ es) (x ∷ ids) h =
        rw (find_id, h.0, laws.equals-text x id, find_id-Entries id es ids h.1)
          (elim (Bool-cases (eqb x id)) [
            | inl found ↦ rw found refl
            | inr other ↦ rw other (later-done e es (position id ids))
          ])

    pub IsTable-with_elements :
        (table : J) (es : List J) (ids : List Bytes)
        → IsTable lib table ids
        → Entries lib es ids
        → IsTable lib (lib.with_elements table es) ids
    IsTable-with_elements table es ids is h = record {
      is_array = laws.is_array-with_elements table es ∙ is.is_array;
      entries =
          rw
            (laws.elements-with_elements table es
              (Entries-length es ids h ∙ sym (Entries-length (lib.elements table) ids is.entries)))
            h;
    }

    -- A new element at the end.
    pub push_back-IsTable :
        (table e : J) (ids : List Bytes) (id : Bytes)
        → IsTable lib table ids
        → IsEntry lib e id
        → Gives (λ t. IsTable lib t (ids ++ id ∷ [])) (lib.push_back table e)
    push_back-IsTable table e ids id is entry =
        let (table', pushed, array, all) = laws.push_back-array table e is.is_array in
        record {
          value = table';
          is = pushed;
          holds = record {
            is_array = array;
            entries = rw all (Entries-append (lib.elements table) ids e id is.entries entry);
          };
        }

    -- The element at the position of an identifier is taken out.
    pub erase-IsTable :
        (table : J) (ids : List Bytes) (id : Bytes) (i : ℕ)
        → IsTable lib table ids
        → position id ids ≡ some i
        → Gives (λ t. IsTable lib t (remove_first id ids)) (lib.erase table i)
    erase-IsTable table ids id i is at =
        let leaves = rw at at (remove_first-Entries id (lib.elements table) ids is.entries) in
        let (table', erased, array, rest) = laws.erase-array table i is.is_array leaves.0 in
        record {
          value = table';
          is = erased;
          holds = record { is_array = array; entries = rw rest leaves.1 };
        }
