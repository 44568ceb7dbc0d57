-- ===== src/NetworkOps/Identifiers.antt =====
-- The identifiers of the entries in the file of a handler, over each operation.
pub mod Create
pub mod Delete
use ur_webif.Base.{
  ℕ, zero, suc, ◌+◌, ◌<◌, Bool, true, false, Option, none, some, List, [], ◌∷◌, ◌++◌, Bytes, codes,
  ◌⊎◌, ◌≡◌, ◌≢◌, refl, sym, ◌∙◌, ap, arith, length, take, drop, eqb, if◌then◌else◌, Bool-cases, inl,
  inr, any_of, map, ◌&&◌, is_some, ◌||◌,
}
use ur_webif.Run.{
  Call, returns, throws, ◌>>=◌, ◌>>◌, pure, Ends, Does, Does-bind, Does-pure, Does-given, Does-ends,
  Does-try_catch,
}
use ur_webif.Json.{
  Attempt, Attempt-cases, done, threw, attempt, Does-attempt, Gives, Does-gives, is_done,
  JsonLibrary, JsonLaws,
}
use ur_webif.NetworkOps.Kind.{Kind}
use ur_webif.NetworkOps.Store.{Store, World, load, save, document_member, set_member}
use ur_webif.NetworkOps.Rules.{
  change_first, find_id, change_entry, update_entry, toggle_entry, new_entry, new_id, create,
  update, toggle,
}
use ur_webif.NetworkOps.Deletion.{test_entry, take_at, take_out, make_array, delete_test, delete}
use ur_webif.NetworkOps.Documents.{
  IsEntry, Entries, IsTable, HasIds, Valid, Emptied, Written, Written-same, Work, load-Work,
  document_member-Work, set_member-Work, set_member-other, save-Valid,
}
use ur_webif.NetworkOps.Entries.{
  KeepsId, position, remove_first, remove_first-absent, remove_first-append, is_some-append,
  Entries-length, change_first-Entries, find_id-Entries, remove_first-Entries,
  IsTable-with_elements, push_back-IsTable, erase-IsTable,
}
use ur_webif.NetworkOps.Entries.Changes.{
  Made, update_entry-KeepsId, toggle_entry-KeepsId, new_entry-IsEntry,
}

module _ {J : Type 0} (lib : JsonLibrary J) (laws : JsonLaws lib) (kind : Kind)
    (other : codes "last_modified" ≢ kind.key) (w : World) where
  -- The end of an operation that has changed the document.
  pub stamp_and_save :
      {E : Store J → Type 0} (old ids : List Bytes)
      → Does
          (Work lib kind.key old ids)
          (set_member lib (codes "last_modified") (lib.text w.modified) >> save lib w)
          (Written lib kind.key old ids w.can_write)
          E
  stamp_and_save old ids =
      Does-bind
        (set_member-other lib laws kind.key old ids (codes "last_modified") (lib.text w.modified)
          other)
        λ _. save-Valid lib laws kind.key old w ids

  -- The file has entries with these identifiers, or has been emptied.
  abbrev pub Stands : List Bytes → Store J → Type 0
  Stands ids t = Valid lib kind.key ids t ⊎ Emptied lib t

  -- Both ends of an operation that leaves the identifiers.
  change_entry-end :
      (ids : List Bytes) (found : Bool)
      → Does
          (Work lib kind.key ids ids)
          (if found
            then set_member lib (codes "last_modified") (lib.text w.modified) >> save lib w
            else pure false)
          (λ _. Stands ids)
          (Valid lib kind.key ids)
  change_entry-end ids true =
      Does-ends (stamp_and_save ids ids) (λ s h. h)
        (λ b t h. Written-same lib kind.key ids w.can_write b t h) (λ t h. h)
  change_entry-end ids false = Does-pure (λ s work. inl (work.0))

  change_entry-Valid :
      (change : J → J × Attempt (Unit {0})) (id : Bytes) (ids : List Bytes)
      → KeepsId lib change
      → Does
          (Valid lib kind.key ids)
          (change_entry lib kind w change id)
          (λ _. Stands ids)
          (Valid lib kind.key ids)
  unfolding change_entry
  change_entry-Valid change id ids keeps = Does-bind (load-Work lib kind.key ids) λ _.
      Does-bind (document_member-Work lib laws kind.key ids ids) λ table. Does-given λ is.
        Does-bind
          (set_member-Work lib laws kind.key ids ids ids _ (
            IsTable-with_elements lib laws table _ ids is
              (change_first-Entries lib laws change id (lib.elements table) ids keeps is.entries)))
          λ _.
            Does-bind
              (Does-attempt (change_first lib change id (lib.elements table)).1
                (λ s m work is. work.0))
              λ found. Does-given λ _. change_entry-end ids found

  -- For a library with `laws`, a kind whose key is not "last_modified", and a file of entries with
  -- the identifiers `ids`: an update with any data, of any identifier, returns, and the file
  -- afterwards has entries with exactly these identifiers in this order, or has been emptied.
  pub update-Valid :
      (id : Bytes) (changes : J) (ids : List Bytes) (s : Store J)
      → Valid lib kind.key ids s
      → Ends (update lib kind w id changes s) (λ _ t. Stands ids t) (λ _ _. ⊥)
  unfolding update
  update-Valid id changes ids =
      Does-try_catch
        (change_entry-Valid (update_entry lib kind changes) id ids
          (update_entry-KeepsId lib laws kind changes))
        (λ t h. inl h)

  -- Under the same conditions: a toggle of any identifier ends by a result or an exception, and
  -- the file afterwards has entries with exactly the identifiers `ids` in this order, or has been
  -- emptied.
  toggle-Valid :
      (id : Bytes) (ids : List Bytes) (s : Store J)
      → Valid lib kind.key ids s
      → Ends (toggle lib kind w id s) (λ _ t. Stands ids t) (λ _ t. Valid lib kind.key ids t)
  unfolding toggle
  toggle-Valid id ids =
      (change_entry-Valid (toggle_entry lib kind) id ids (toggle_entry-KeepsId lib laws kind)).run
