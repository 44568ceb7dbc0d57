-- ===== src/NetworkOps/Deletion.antt =====
-- deleteX of a handler.
use ur_webif.Base.{
  ℕ, Bool, true, false, not, ◌&&◌, Option, none, some, [], ◌∷◌, Bytes, codes, eqb, any_of,
  if◌then◌else◌, map,
}
use ur_webif.Run.{Call, ◌>>=◌, ◌>>◌, pure, gets, try_catch}
use ur_webif.Json.{attempt, JsonLibrary}
use ur_webif.NetworkOps.Kind.{Kind, Field, word, choice, to_json}
use ur_webif.NetworkOps.Store.{Store, World, load, save, document_member, set_member}
use ur_webif.NetworkOps.Rules.{find_id}

module _ {J : Type 0} (lib : JsonLibrary J) where
  -- A member in a list in braces.
  abbrev member_field : Bytes × Field → Bytes × J
  member_field (key, field) = (key, to_json lib field)

  module _ (kind : Kind) where
    -- The element that is made for an identifier of the tests.
    unfoldable pub test_entry : World → Bytes → J
    test_entry w id = lib.object (
        map member_field (
          (codes "id", word id)
          ∷ (codes "name", word kind.test_name)
          ∷ (codes "description", word kind.test_description)
          ∷ (codes "enabled", choice true)
          ∷ (codes "status", word kind.active)
          ∷ (codes "created_date", word w.created)
          ∷ kind.test_fields))

    -- Takes the element at the position out, if there is one.
    unfoldable pub take_at : J → Option ℕ → Call (Store J) Bool
    unfolding set_member
    take_at entries none = pure false
    take_at entries (some i) = do
      shorter ← attempt (lib.erase entries i)
      set_member lib kind.key shorter
      pure true

    -- Takes the first element with the identifier out; the entries are those that `data[key]`
    -- refers to.
    unfoldable pub take_out : Bytes → J → Call (Store J) Bool
    unfolding set_member find_id take_at
    take_out id entries = do
      let (touched, outcome) = find_id lib id (lib.elements entries)
      let entries' = lib.with_elements entries touched
      set_member lib kind.key entries'
      found ← attempt outcome
      take_at entries' found

    -- "Initialize … array if it doesn't exist", which one of the handlers does.
    unfoldable pub make_array : Call (Store J) (Unit {0})
    unfolding set_member
    make_array = do
      has_key ← gets λ s. lib.contains s.document kind.key
      if kind.makes_array && not has_key then set_member lib kind.key (lib.array []) else pure tt

    -- For an identifier of the tests that is not there: an element with it is made and taken out.
    unfoldable pub delete_test : World → Bytes → Call (Store J) Bool
    unfolding save document_member set_member take_out test_entry
    delete_test w id = do
      entries ← document_member lib kind.key
      entries' ← attempt (lib.push_back entries (test_entry w id))
      set_member lib kind.key entries'
      set_member lib (codes "last_modified") (lib.text w.modified)
      found ← take_out id entries'
      if found then save lib w else pure false

    unfoldable pub delete : World → Bytes → Call (Store J) Bool
    unfolding load save document_member set_member take_out make_array delete_test
    delete w id =
        try_catch
          (do
            load lib
            make_array
            entries ← document_member lib kind.key
            found ← take_out id entries
            if found
                then set_member lib (codes "last_modified") (lib.text w.modified) >> save lib w
                else (if any_of (eqb id) kind.test_ids then delete_test w id else pure false))
          (λ e. pure false)
