-- ===== src/NetworkOps/Rules.antt =====
-- getX, createX, updateX, deleteX and toggleX of a handler.
use ur_webif.Base.{
  ℕ, suc, ◌+◌, Bool, true, false, not, ◌||◌, Option, none, some, List, [], ◌∷◌, ◌++◌, Bytes, codes,
  to_string, eqb, length, if◌then◌else◌,
}
use ur_webif.Run.{Call, ◌>>=◌, ◌>>◌, pure, gets, try_catch}
use ur_webif.Json.{Attempt, done, threw, attempt, JsonLibrary}
use ur_webif.NetworkOps.Kind.{Kind}
use ur_webif.NetworkOps.Store.{Store, World, load, save, document_member, set_member}

module _ {J : Type 0} (lib : JsonLibrary J) where
  -- The value and then the next step, unless it throws: the element as it is then.
  abbrev pub step : J → Attempt J → (J → J × Attempt (Unit {0})) → J × Attempt (Unit {0})
  step e (done e') next = next e'
  step e (threw m) next = (e, threw m)

  -- What becomes of the element that a loop has stopped at.
  abbrev pub stop_at : J × Attempt (Unit {0}) → List J → List J × Attempt Bool
  stop_at (e, done u) es = (e ∷ es, done true)
  stop_at (e, threw m) es = (e ∷ es, threw m)

  abbrev behind : J → List J × Attempt Bool → List J × Attempt Bool
  behind e (es, outcome) = (e ∷ es, outcome)

  -- `for (auto& element : data[key]) if (element["id"] == id) { change; … }`
  unfoldable pub change_first :
      (J → J × Attempt (Unit {0})) → Bytes → List J → List J × Attempt Bool
  change_first change id [] = ([], done false)
  change_first change id (e ∷ es) =
      let rest = change_first change id es in
      elim (lib.member e (codes "id")) [
        | threw m ↦ (e ∷ es, threw m)
        | done (value, e') ↦
            (if lib.equals value id then stop_at (change e') es else behind e' rest)
      ]

  abbrev pub later : J → List J × Attempt (Option ℕ) → List J × Attempt (Option ℕ)
  later e (es, done none) = (e ∷ es, done none)
  later e (es, done (some i)) = (e ∷ es, done (some (suc i)))
  later e (es, threw m) = (e ∷ es, threw m)

  -- The position of the first element with the identifier.
  unfoldable pub find_id : Bytes → List J → List J × Attempt (Option ℕ)
  find_id id [] = ([], done none)
  find_id id (e ∷ es) =
      let rest = find_id id es in
      elim (lib.member e (codes "id")) [
        | threw m ↦ (e ∷ es, threw m)
        | done (value, e') ↦
            (if lib.equals value id then (e' ∷ es, done (some 0)) else later e' rest)
      ]

  module _ (kind : Kind) where
    unfoldable pub get_all : Call (Store J) J
    unfolding load
    get_all = load lib >> gets λ s. s.document

    -- The first element with the identifier, or an empty value.
    unfoldable pub first_with : Bytes → List J → Attempt J
    first_with id [] = done lib.null
    first_with id (e ∷ es) =
        let rest = first_with id es in
        if lib.contains e (codes "id")
        then elim (lib.member e (codes "id")) [
          | threw m ↦ threw m
          | done (value, e') ↦ if lib.equals value id then done e else rest
        ]
        else rest

    unfoldable pub get_one : Bytes → Call (Store J) J
    unfolding load document_member first_with
    get_one id = do
      load lib
      has_key ← gets λ s. lib.contains s.document kind.key
      if has_key
          then (do
            entries ← document_member lib kind.key
            if lib.is_array entries
                then attempt (first_with id (lib.elements entries))
                else pure lib.null)
          else pure lib.null

    abbrev pub status : Bool → J
    status enabled = lib.text (if enabled then kind.active else kind.inactive)

    -- `size() + 1` behind the prefix.
    abbrev pub new_id : ℕ → Bytes
    new_id size = kind.id_prefix ++ to_string (size + 1)

    -- The new element from the data of the request.
    unfoldable pub new_entry : World → Bytes → J → Attempt J
    new_entry w id entry_data = elim (lib.assign entry_data (codes "id") (lib.text id)) [
      | threw m ↦ threw m
      | done e1 ↦ elim (lib.assign e1 (codes "created_date") (lib.text w.created)) [
        | threw m ↦ threw m
        | done e2 ↦ elim (lib.value_flag e2 (codes "enabled") true) [
          | threw m ↦ threw m
          | done enabled ↦ lib.assign e2 (codes "status") (status enabled)
        ]
      ]
    ]

    unfoldable pub create : World → J → Call (Store J) Bool
    unfolding load save document_member set_member new_entry
    create w entry_data =
        try_catch
          (do
            load lib
            entries ← document_member lib kind.key
            let id = new_id (length (lib.elements entries))
            entry ← attempt (new_entry w id entry_data)
            entries' ← document_member lib kind.key
            entries'' ← attempt (lib.push_back entries' entry)
            set_member lib kind.key entries''
            set_member lib (codes "last_modified") (lib.text w.modified)
            save lib w)
          (λ e. pure false)

    -- `for (auto& [key, value] : …items()) if (key != "id" && key != "created_date") …`
    unfoldable pub merge_items :
        List (Bytes × J) → J → (J → J × Attempt (Unit {0})) → J × Attempt (Unit {0})
    merge_items [] e next = next e
    merge_items ((key, value) ∷ more) e next =
        if eqb key (codes "id") || eqb key (codes "created_date")
        then merge_items more e next
        else step e (lib.assign e key value) (λ e'. merge_items more e' next)

    unfoldable pub set_status : Attempt Bool → J → J × Attempt (Unit {0})
    set_status (threw m) e = (e, threw m)
    set_status (done enabled) e =
        step e (lib.assign e (codes "status") (status enabled)) (λ e'. (e', done tt))

    unfoldable pub update_entry : J → J → J × Attempt (Unit {0})
    unfolding merge_items set_status
    update_entry changes e =
        merge_items (lib.items changes) e
          (λ e'. set_status (lib.value_flag e' (codes "enabled") true) e')

    -- What the loops of `update` and `toggle` have in common.
    unfoldable pub change_entry : World → (J → J × Attempt (Unit {0})) → Bytes → Call (Store J) Bool
    unfolding load save document_member set_member change_first
    change_entry w change id = do
      load lib
      entries ← document_member lib kind.key
      let (changed, outcome) = change_first change id (lib.elements entries)
      set_member lib kind.key (lib.with_elements entries changed)
      found ← attempt outcome
      if found
          then set_member lib (codes "last_modified") (lib.text w.modified) >> save lib w
          else pure false

    unfoldable pub update : World → Bytes → J → Call (Store J) Bool
    unfolding change_entry update_entry
    update w id changes = try_catch (change_entry w (update_entry changes) id) (λ e. pure false)

    -- The word for the status follows the member that has just been set.
    unfoldable pub status_of_member : J → Attempt (J × J) → J × Attempt (Unit {0})
    unfolding set_status
    status_of_member e (threw m) = (e, threw m)
    status_of_member e (done (value, e')) = set_status (lib.to_flag value) e'

    unfoldable pub toggle_from : J → Attempt Bool → J × Attempt (Unit {0})
    unfolding status_of_member
    toggle_from e (threw m) = (e, threw m)
    toggle_from e (done enabled) =
        step e (lib.assign e (codes "enabled") (lib.flag (not enabled)))
          (λ e'. status_of_member e' (lib.member e' (codes "enabled")))

    unfoldable pub toggle_entry : J → J × Attempt (Unit {0})
    unfolding toggle_from
    toggle_entry e = toggle_from e (lib.value_flag e (codes "enabled") true)

    unfoldable pub toggle : World → Bytes → Call (Store J) Bool
    unfolding change_entry toggle_entry
    toggle w id = change_entry w toggle_entry id
