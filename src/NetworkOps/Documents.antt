-- ===== src/NetworkOps/Documents.antt =====
-- Documents whose entries have identifiers, and what the steps of the operations do to them.
use ur_webif.Base.{
  Bool, true, false, ◌&&◌, ◌⊎◌, arith, some, List, [], ◌∷◌, Bytes, codes, ◌≡◌, ◌≢◌, refl,
  if◌then◌else◌, Bool-cases, inl, inr,
}
use ur_webif.Run.{Ends, Does}
use ur_webif.Json.{Attempt-cases, done, threw, JsonLibrary, JsonLaws}
use ur_webif.NetworkOps.Store.{Store, World, load, save, document_member, set_member}

module _ {J : Type 0} (lib : JsonLibrary J) where
  -- The identifier of an entry.
  abbrev pub IsEntry : J → Bytes → Type 0
  IsEntry e id = lib.member e (codes "id") ≡ done (lib.text id, e)

  -- The identifiers of the entries, in order.
  abbrev pub Entries : List J → List Bytes → Type 0
  Entries [] [] = Unit
  Entries (e ∷ es) (id ∷ ids) = IsEntry e id × Entries es ids
  Entries [] (id ∷ ids) = ⊥
  Entries (e ∷ es) [] = ⊥

  -- An array of entries with these identifiers.
  pub record IsTable (table : J) (ids : List Bytes) : Type 0 where
    pub is_array : lib.is_array table ≡ true
    pub entries : Entries (lib.elements table) ids

  -- The member under the key is such an array.
  abbrev pub HasIds : Bytes → J → List Bytes → Type 0
  HasIds key document ids =
      (table : J) × (lib.member document key ≡ done (table, document)) × IsTable table ids

  -- The file can be read, and holds such a document.
  pub record Valid (key : Bytes) (ids : List Bytes) (s : Store J) : Type 0 where
    pub content : Bytes
    pub held : J
    pub file : s.file ≡ some content
    pub reads : (x : J) → lib.read_from content x ≡ (held, done tt)
    pub lists : HasIds key held ids

  -- The file was opened, and is empty, since a document could not be written as text.
  pub record Emptied (s : Store J) : Type 0 where
    pub lost : J
    pub message : Bytes
    pub refused : lib.dump lost ≡ threw message
    pub file : s.file ≡ some []

  -- How a change from the identifiers `old` to `ids` ends that answers `b`. It takes place and answers
  -- true if it can, and else answers false and leaves the file as it was; or it answers false, and
  -- the file has been emptied.
  abbrev pub Written : Bytes → List Bytes → List Bytes → Bool → Bool → Store J → Type 0
  Written key old ids can b t =
      (Valid key (if b then ids else old) t × (b ≡ can)) ⊎ ((b ≡ false) × (can ≡ true) × Emptied t)

  -- A condition that is met already.
  pub Written-and :
      (key : Bytes) (old ids : List Bytes) (made can b : Bool) (t : Store J)
      → made ≡ true
      → Written key old ids can b t
      → Written key old ids (made && can) b t
  Written-and key old ids true can b t e h = h
  Written-and key old ids false can b t e h = ground (arith, e)

  -- A change that leaves the identifiers.
  pub Written-same :
      (key : Bytes) (ids : List Bytes) (can b : Bool) (t : Store J)
      → Written key ids ids can b t
      → Valid key ids t ⊎ Emptied t
  Written-same key ids can true t (inl h) = inl (h.0)
  Written-same key ids can false t (inl h) = inl (h.0)
  Written-same key ids can b t (inr h) = inr (h.2)

  -- The file is as before, and the document in memory has the identifiers.
  abbrev pub Work : Bytes → List Bytes → List Bytes → Store J → Type 0
  Work key old ids s = Valid key old s × HasIds key s.document ids

  pub same_file :
      (key : Bytes) (ids : List Bytes) (s : Store J) (d : J)
      → Valid key ids s
      → Valid key ids (record s { document = d })
  same_file key ids s d v = record {
    content = v.content;
    held = v.held;
    file = v.file;
    reads = v.reads;
    lists = v.lists;
  }

  pub load-Work :
      {E : Store J → Type 0} (key : Bytes) (ids : List Bytes)
      → Does (Valid key ids) (load lib) (λ _ t. Work key ids ids t) E
  unfolding load
  load-Work {E} key ids = record {
    run =
        λ s v. rw (load, v.file) (rw (v.reads s.document) (same_file key ids s v.held v, v.lists));
  }

  module _ (laws : JsonLaws lib) (key : Bytes) (old : List Bytes) where
    pub document_member-Work :
        {E : Store J → Type 0} (ids : List Bytes)
        → Does
            (Work key old ids)
            (document_member lib key)
            (λ table t. Work key old ids t × IsTable table ids)
            E
    unfolding document_member
    document_member-Work {E} ids = record {
      run = λ s (v, (table, found, is)).
          rw found ((same_file key old s s.document v, (table, found, is)), is);
    }

    -- Putting a table under the key.
    pub set_member-Work :
        {E : Store J → Type 0} (ids ids' : List Bytes) (table : J)
        → IsTable table ids'
        → Does (Work key old ids) (set_member lib key table) (λ _. Work key old ids') E
    unfolding set_member
    set_member-Work {E} ids ids' table is' = record {
      run = λ s (v, (table', found, is)).
          let (document, e) = laws.assign-member s.document table' table key key found in
          rw e (
            same_file key old s document v,
            (table, laws.member-assign s.document document table key e, is'),
          );
    }

    -- Putting anything under another key.
    pub set_member-other :
        {E : Store J → Type 0} (ids : List Bytes) (other : Bytes) (value : J)
        → other ≢ key
        → Does (Work key old ids) (set_member lib other value) (λ _. Work key old ids) E
    unfolding set_member
    set_member-other {E} ids other value ne = record {
      run = λ s (v, (table, found, is)).
          let (document, e) = laws.assign-member s.document table value other key found in
          rw e (
            same_file key old s document v,
            (
              table,
              laws.member-assign_other s.document document value table other key e ne found,
              is,
            ),
          );
    }

    -- The file holds what the document does, unless it does not open or is emptied.
    pub save-Valid :
        {E : Store J → Type 0} (w : World) (ids : List Bytes)
        → Does (Work key old ids) (save lib w) (Written key old ids w.can_write) E
    unfolding save
    save-Valid {E} w ids = record {
      run = λ s (v, found).
          elim (Bool-cases w.can_write)
            as (λ _. Ends (save lib w s) (Written key old ids w.can_write) (λ _ t. E t)) [
              | inl e ↦ rw e (elim (Attempt-cases (lib.dump s.document)) [
                | inl (content, is) ↦ rw is (
                    inl (
                      record {
                        content = content;
                        held = s.document;
                        file = refl;
                        reads = λ x. laws.read-dump s.document x content is;
                        lists = found;
                      },
                      refl,
                    ))
                | inr (message, is) ↦ rw is (
                    inr (
                      refl,
                      refl,
                      record { lost = s.document; message = message; refused = is; file = refl },
                    ))
              ])
              | inr e ↦ rw e (inl (v, refl))
            ];
    }
