-- ===== src/Credentials/Disk/Table.antt =====
-- The table of the credentials as an object of the JSON library, and back.
use ur_webif.Base.{
  false, Option, none, some, List, [], ◌∷◌, Bytes, Assoc, lookup, insert, erase, IsMap,
  IsMap-insert, lookup-insert, lookup-erase, eqb, eqb_refl, eqb_iff, ◌≡◌, refl, ◌∙◌, sym, ap, arith,
  Bool-cases, inl, inr,
}
use ur_webif.Run.{returns}
use ur_webif.Json.{JsonLibrary}
use ur_webif.Json.Objects.{ObjectLaws}
use ur_webif.Credentials.State.{CredentialManager}
use ur_webif.Credentials.Disk.{fill, adopt}

module _ {J : Type 0} (lib : JsonLibrary J) (laws : ObjectLaws lib) where
  -- The members of the table that `fill` makes.
  abbrev pub texts : Assoc Bytes → Assoc J → Assoc J
  texts [] table = table
  texts ((username, hash) ∷ more) table = texts more (insert username (lib.text hash) table)

  pub fill-object :
      (m : Assoc Bytes) (table : Assoc J) (s : CredentialManager)
      → fill lib m (lib.object table) s ≡ returns (lib.object (texts m table)) s
  unfolding fill
  fill-object [] table s = refl
  fill-object ((username, hash) ∷ more) table s =
      rw (laws.assign-object table username (lib.text hash))
        (fill-object more (insert username (lib.text hash) table) s)

  abbrev text_of : Option Bytes → Option J → Option J
  text_of none found = found
  text_of (some hash) found = some (lib.text hash)

  lookup-texts :
      (m : Assoc Bytes) (table : Assoc J) (k : Bytes)
      → IsMap m
      → lookup k (texts m table) ≡ text_of (lookup k m) (lookup k table)
  unfolding lookup
  lookup-texts [] table k h = refl
  lookup-texts ((username, hash) ∷ more) table k h =
      lookup-texts more (insert username (lib.text hash) table) k h.1
      ∙ rw (lookup-insert username k (lib.text hash) table) (elim (Bool-cases (eqb username k)) [
        | inl same ↦
            rw (same, ap (λ j. lookup j more) (sym ((eqb_iff username k).0 same)), h.0) refl
        | inr other ↦ rw (other) refl
      ])

  pub IsMap-texts : (m : Assoc Bytes) (table : Assoc J) → IsMap table → IsMap (texts m table)
  IsMap-texts [] table h = h
  IsMap-texts ((username, hash) ∷ more) table h =
      IsMap-texts more _ (IsMap-insert username (lib.text hash) table h)

  -- Every entry of the items is taken over.
  abbrev pub or_else : Option Bytes → Option Bytes → Option Bytes
  or_else none old = old
  or_else (some new) old = some new

  abbrev pub Adopted : List (Bytes × J) → Assoc Bytes → CredentialManager → Type 0
  Adopted items m s =
      (c : Assoc Bytes) × (adopt lib items s ≡ returns tt (record s { credentials = c }))
      × ((k : Bytes) → lookup k c ≡ or_else (lookup k m) (lookup k s.credentials))

  text_of-none : (o : Option Bytes) → none ≡ text_of o none → o ≡ none
  text_of-none none h = refl
  text_of-none (some hash) h = ground (arith, h)

  text_of-some :
      (o : Option Bytes) (j : J)
      → some j ≡ text_of o none
      → (hash : Bytes) × (o ≡ some hash) × (j ≡ lib.text hash)
  text_of-some none j h = ground (arith, h)
  text_of-some (some hash) j h = (hash, refl, ground (arith, h))

  newest :
      (username k hash : Bytes) (m old : Assoc Bytes)
      → lookup username m ≡ some hash
      → or_else (lookup k (erase username m)) (lookup k (insert username hash old))
        ≡ or_else (lookup k m) (lookup k old)
  newest username k hash m old found =
      rw (lookup-erase username k m, lookup-insert username k hash old)
        (elim (Bool-cases (eqb username k)) [
          | inl same ↦
              rw (same, ap (λ i. lookup i m) (sym ((eqb_iff username k).0 same)) ∙ found) refl
          | inr other ↦ rw other refl
        ])

  lookup-head :
      (username : Bytes) (j : J) (rest : List (Bytes × J))
      → some j ≡ lookup username ((username, j) ∷ rest)
  unfolding lookup
  lookup-head username j rest = rw (eqb_refl username) refl

  lookup-tail :
      (username k : Bytes) (j : J) (rest : List (Bytes × J))
      → eqb username k ≡ false
      → lookup k rest ≡ lookup k ((username, j) ∷ rest)
  unfolding lookup
  lookup-tail username k j rest h = rw h refl

  rest_lookup :
      (username : Bytes) (j : J) (rest : List (Bytes × J)) (m : Assoc Bytes)
      → lookup username rest ≡ none
      → ((k : Bytes) → lookup k ((username, j) ∷ rest) ≡ text_of (lookup k m) none)
      → (k : Bytes) → lookup k rest ≡ text_of (lookup k (erase username m)) none
  unfolding lookup
  rest_lookup username j rest m new h k =
      rw (lookup-erase username k m) (elim (Bool-cases (eqb username k)) [
        | inl same ↦ rw same (ap (λ i. lookup i rest) (sym ((eqb_iff username k).0 same)) ∙ new)
        | inr other ↦ rw other (lookup-tail username k j rest other ∙ h k)
      ])

  adopt-step :
      (username hash : Bytes) (j : J) (rest : List (Bytes × J)) (s : CredentialManager)
      → j ≡ lib.text hash
      → adopt lib ((username, j) ∷ rest) s
        ≡ adopt lib rest (record s { credentials = insert username hash s.credentials })
  unfolding adopt
  adopt-step username hash j rest s e = rw (e, laws.to_text-text hash) refl

  pub adopt-Adopted :
      (items : List (Bytes × J)) (m : Assoc Bytes) (s : CredentialManager)
      → IsMap items
      → ((k : Bytes) → lookup k items ≡ text_of (lookup k m) none)
      → Adopted items m s
  adopt-Adopted [] m s is h = (
    s.credentials,
    unfold adopt in refl,
    λ k. rw (text_of-none (lookup k m) (unfold lookup in h k)) refl,
  )
  adopt-Adopted ((username, j) ∷ rest) m s is h =
      let (hash, found, e) =
        text_of-some (lookup username m) j (lookup-head username j rest ∙ h username) in
      let s' = record s { credentials = insert username hash s.credentials } in
      let (c, ran, all) =
        adopt-Adopted rest (erase username m) s' is.1 (rest_lookup username j rest m is.0 h) in
      (
        c,
        adopt-step username hash j rest s e ∙ ran,
        λ k. all k ∙ newest username k hash m s.credentials found,
      )

  pub lookup_table :
      (m : Assoc Bytes) (k : Bytes)
      → IsMap m
      → lookup k (lib.items (lib.object (texts m []))) ≡ text_of (lookup k m) none
  unfolding lookup
  lookup_table m k is =
      laws.items-lookup (texts m []) k (IsMap-texts m [] tt) ∙ lookup-texts m [] k is

  pub or_else-none : (o : Option Bytes) → or_else o none ≡ o
  or_else-none none = refl
  or_else-none (some hash) = refl
