-- ===== src/NetworkOps/Entries/Changes.antt =====
-- The changes that the operations make to an entry, and the new element of `create`.
use ur_webif.Base.{
  Bool, true, List, [], ◌∷◌, Bytes, codes, ◌≡◌, ◌≢◌, refl, arith, eqb, Bool-cases, inl, inr, ◌||◌,
  not,
}
use ur_webif.Json.{Attempt, Attempt-cases, done, threw, JsonLibrary, JsonLaws}
use ur_webif.NetworkOps.Kind.{Kind}
use ur_webif.NetworkOps.Store.{World}
use ur_webif.NetworkOps.Rules.{
  step, merge_items, set_status, update_entry, toggle_from, toggle_entry, status_of_member,
  new_entry, status,
}
use ur_webif.NetworkOps.Documents.{IsEntry}
use ur_webif.NetworkOps.Entries.{eqb_not, KeepsId}

module _ {J : Type 0} (lib : JsonLibrary J) (laws : JsonLaws lib) where
  -- Setting another member of an entry.
  assign-IsEntry :
      (e value : J) (id key : Bytes)
      → key ≢ codes "id"
      → IsEntry lib e id
      → (e' : J) × (lib.assign e key value ≡ done e') × IsEntry lib e' id
  assign-IsEntry e value id key ne h =
      let (e', is) = laws.assign-member e (lib.text id) value key (codes "id") h in
      (e', is, laws.member-assign_other e e' value (lib.text id) key (codes "id") is ne h)

  -- A step that throws leaves the entry, and one that does not goes on with it.
  step-IsEntry :
      (e value : J) (id key : Bytes) (next : J → J × Attempt (Unit {0}))
      → key ≢ codes "id"
      → IsEntry lib e id
      → KeepsId lib next
      → IsEntry lib ((step lib e (lib.assign e key value) next).0) id
  step-IsEntry e value id key next ne h keeps =
      let (e', is, entry) = assign-IsEntry e value id key ne h in rw is (keeps e' id entry)

  module _ (kind : Kind) where
    merge_items-KeepsId :
        (changes : List (Bytes × J)) (next : J → J × Attempt (Unit {0}))
        → KeepsId lib next
        → KeepsId lib (λ e. merge_items lib kind changes e next)
    unfolding merge_items
    merge_items-KeepsId [] next keeps e id h = keeps e id h
    merge_items-KeepsId ((key, value) ∷ more) next keeps e id h =
        elim (Bool-cases (eqb key (codes "id") || eqb key (codes "created_date"))) [
          | inl skipped ↦ rw skipped (merge_items-KeepsId more next keeps e id h)
          | inr taken ↦ rw taken (
              step-IsEntry e value id key (λ e'. merge_items lib kind more e' next)
                (eqb_not key (codes "id") (ground arith)) h (merge_items-KeepsId more next keeps))
        ]

    set_status-KeepsId : (enabled : Attempt Bool) → KeepsId lib (set_status lib kind enabled)
    unfolding set_status eqb
    set_status-KeepsId (threw m) e id h = h
    set_status-KeepsId (done enabled) e id h =
        step-IsEntry e (status lib kind enabled) id (codes "status") (λ e'. (e', done tt))
          (eqb_not (codes "status") (codes "id") refl) h (λ e' id' h'. h')

    pub update_entry-KeepsId : (changes : J) → KeepsId lib (update_entry lib kind changes)
    unfolding update_entry
    update_entry-KeepsId changes =
        merge_items-KeepsId (lib.items changes)
          (λ e'. set_status lib kind (lib.value_flag e' (codes "enabled") true) e')
          (λ e' id h. set_status-KeepsId (lib.value_flag e' (codes "enabled") true) e' id h)

    toggle_from-KeepsId :
        (enabled : Attempt Bool) → KeepsId lib (λ e. toggle_from lib kind e enabled)
    unfolding toggle_from status_of_member eqb
    toggle_from-KeepsId (threw m) e id h = h
    toggle_from-KeepsId (done enabled) e id h =
        let new = lib.flag (not enabled) in
        let (e', is, entry) =
          assign-IsEntry e new id (codes "enabled") (eqb_not (codes "enabled") (codes "id") refl)
            h in
        rw is (
          rw (laws.member-assign e e' new (codes "enabled") is)
            (set_status-KeepsId (lib.to_flag new) e' id entry))

    pub toggle_entry-KeepsId : KeepsId lib (toggle_entry lib kind)
    unfolding toggle_entry
    toggle_entry-KeepsId e id h =
        toggle_from-KeepsId (lib.value_flag e (codes "enabled") true) e id h

    abbrev pub Made : Bytes → Attempt J → Type 0
    Made id (done e) = IsEntry lib e id
    Made id (threw m) = Unit

    -- A new element that is made has its identifier.
    pub new_entry-IsEntry :
        (w : World) (id : Bytes) (entry_data : J) → Made id (new_entry lib kind w id entry_data)
    unfolding new_entry eqb
    new_entry-IsEntry w id entry_data =
        elim (Attempt-cases (lib.assign entry_data (codes "id") (lib.text id))) [
          | inr (m, is) ↦ rw (new_entry, is) tt
          | inl (e1, is1) ↦
              (let entry1 = laws.member-assign entry_data e1 (lib.text id) (codes "id") is1 in
                let (e2, is2, entry2) =
                  assign-IsEntry e1 (lib.text w.created) id (codes "created_date")
                    (eqb_not (codes "created_date") (codes "id") refl) entry1 in
                elim (Attempt-cases (lib.value_flag e2 (codes "enabled") true)) [
                  | inr (m, is) ↦ rw (new_entry, is1, is2, is) tt
                  | inl (enabled, is) ↦
                      (let (e3, is3, entry3) =
                          assign-IsEntry e2 (status lib kind enabled) id (codes "status")
                            (eqb_not (codes "status") (codes "id") refl) entry2 in
                        rw (new_entry, is1, is2, is, is3) entry3)
                ])
        ]
