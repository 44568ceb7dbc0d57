-- ===== src/NetworkOps/Requests.antt =====
-- handleXRequest and the functions it calls, with the texts of the answers.
use ur_webif.Base.{
  ℕ, ◌+◌, true, false, not, Option, none, some, List, [], ◌∷◌, ◌++◌, Bytes, codes, eqb, drop,
  is_empty, find?, if◌then◌else◌, ◌==◌,
}
use ur_webif.Run.{Call, ◌>>=◌, pure, try_catch}
use ur_webif.Json.{Attempt, done, threw, attempt, JsonLibrary}
use ur_webif.NetworkOps.Kind.{Kind}
use ur_webif.NetworkOps.Store.{Store, World}
use ur_webif.NetworkOps.Rules.{get_all, get_one, create, update}
use ur_webif.NetworkOps.Deletion.{delete}

-- `remainder.length() > 1 && remainder[0] == '/'` and `remainder.substr(1)`
abbrev after_slash : Bytes → Option Bytes
after_slash (c ∷ d ∷ rest) = if c == b'/' then some (d ∷ rest) else none
after_slash _ = none

-- The identifier in the path, behind the segment.
unfoldable pub id_in_path : Kind → Bytes → Option Bytes
id_in_path kind path = elim (find? kind.segment path) [
  | none ↦ none
  | some position ↦ after_slash (drop (position + kind.segment_length) path)
]

module _ {J : Type 0} (lib : JsonLibrary J) where
  unfoldable pub merge_into : List (Bytes × J) → J → Attempt J
  merge_into [] response = done response
  merge_into ((key, value) ∷ more) response = elim (lib.assign response key value) [
    | threw e ↦ threw e
    | done response' ↦ merge_into more response'
  ]

  unfoldable pub create_success_response : World → J → Bytes → Call (Store J) Bytes
  unfolding merge_into
  create_success_response w entry_data message = do
    let response =
        lib.object
          ((codes "success", lib.flag true) ∷ (codes "timestamp", lib.number w.seconds) ∷ [])
    with_message ←
        (if not (is_empty message)
          then attempt (lib.assign response (codes "message") (lib.text message))
          else pure response)
    merged ← attempt (merge_into (lib.items entry_data) with_message)
    attempt (lib.dump merged)

  unfoldable pub create_error_response : World → Bytes → ℕ → Call (Store J) Bytes
  create_error_response w error code = attempt (
      lib.dump (
        lib.object (
          (codes "success", lib.flag false)
          ∷ (codes "error", lib.text error)
          ∷ (codes "code", lib.number code)
          ∷ (codes "timestamp", lib.number w.seconds)
          ∷ [])))

  module _ (kind : Kind) where
    unfoldable pub handle_get_all : World → Call (Store J) Bytes
    unfolding get_all create_success_response
    handle_get_all w = do
      all ← get_all lib kind
      create_success_response w all (kind.plural ++ codes " retrieved successfully")

    unfoldable pub handle_get_one : World → Bytes → Call (Store J) Bytes
    unfolding get_one create_success_response create_error_response
    handle_get_one w id = do
      entry ← get_one lib kind id
      if lib.empty entry
          then create_error_response w (kind.title ++ codes " not found") 404
          else create_success_response w entry (kind.title ++ codes " retrieved successfully")

    unfoldable pub handle_create : World → Bytes → Call (Store J) Bytes
    unfolding create get_all create_success_response create_error_response
    handle_create w body =
        if is_empty body
        then create_error_response w (kind.title ++ codes " data is empty") 400
        else try_catch
            (do
              entry_data ← attempt (lib.parse body)
              created ← create lib kind w entry_data
              if created
                  then (do
                    all ← get_all lib kind
                    create_success_response w all (kind.title ++ codes " created successfully"))
                  else create_error_response w (codes "Failed to create " ++ kind.noun) 400)
            (λ e.
              create_error_response w
                (codes "Invalid JSON data for " ++ (kind.noun ++ (codes " creation: " ++ e))) 400)

    unfoldable pub handle_update : World → Bytes → Bytes → Call (Store J) Bytes
    unfolding update get_all create_success_response create_error_response
    handle_update w id body =
        if is_empty body
        then create_error_response w (kind.title ++ codes " update data is empty") 400
        else try_catch
            (do
              changes ← attempt (lib.parse body)
              updated ← update lib kind w id changes
              if updated
                  then (do
                    all ← get_all lib kind
                    create_success_response w all (kind.title ++ codes " updated successfully"))
                  else create_error_response w
                      (codes "Failed to update " ++ (kind.noun ++ (codes " with ID: " ++ id))) 404)
            (λ e.
              create_error_response w
                (codes "Invalid JSON data for " ++ (kind.noun ++ (codes " update: " ++ e))) 400)

    unfoldable pub handle_delete : World → Bytes → Call (Store J) Bytes
    unfolding delete get_all create_success_response create_error_response
    handle_delete w id = do
      deleted ← delete lib kind w id
      if deleted
          then (do
            all ← get_all lib kind
            create_success_response w all (kind.title ++ codes " deleted successfully"))
          else create_error_response w
              (codes "Failed to delete " ++ (kind.noun ++ (codes " with ID: " ++ id))) 404

    unfoldable pub handle_request : World → Bytes → Bytes → Bytes → Call (Store J) Bytes
    unfolding id_in_path handle_get_all handle_get_one handle_create handle_update handle_delete
        create_error_response
    handle_request w method path body =
        if eqb method (codes "GET")
        then elim (id_in_path kind path) [ some id ↦ handle_get_one w id | none ↦ handle_get_all w ]
        else if eqb method (codes "POST")
        then handle_create w body
        else if eqb method (codes "PUT")
        then elim (id_in_path kind path) [
          | some id ↦ handle_update w id body
          | none ↦ create_error_response w (kind.title ++ codes " ID required for PUT request") 400
        ]
        else if eqb method (codes "DELETE")
        then elim (id_in_path kind path) [
          | some id ↦ handle_delete w id
          | none ↦
              create_error_response w (kind.title ++ codes " ID required for DELETE request") 400
        ]
        else create_error_response w (codes "Method not allowed") 405
