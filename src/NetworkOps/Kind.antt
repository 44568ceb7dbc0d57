-- ===== src/NetworkOps/Kind.antt =====
-- What the handlers of src/network-ops differ in.
use ur_webif.Base.{ℕ, Bool, List, Bytes, map}
use ur_webif.Json.{JsonLibrary}

-- A value in the entry that a deletion makes for a test.
pub data Field : Type 0 where
  word : Bytes → Field
  amount : ℕ → Field
  choice : Bool → Field
  words : List Bytes → Field

abbrev pub to_json : {J : Type 0} → JsonLibrary J → Field → J
to_json lib (word w) = lib.text w
to_json lib (amount n) = lib.number n
to_json lib (choice b) = lib.flag b
to_json lib (words ws) = lib.array (map lib.text ws)

-- `key` is the member with the entries, `id_prefix` begins the generated identifiers, `active` and
-- `inactive` are the words for the status. The last fields are for the requests: the part of the path
-- before the identifier with its length as the source has it, and the words in the answers.
pub record Kind : Type 0 where
  pub key : Bytes
  pub id_prefix : Bytes
  pub active : Bytes
  pub inactive : Bytes
  pub test_ids : List Bytes
  pub makes_array : Bool
  pub test_name : Bytes
  pub test_description : Bytes
  pub test_fields : List (Bytes × Field)
  pub segment : Bytes
  pub segment_length : ℕ
  pub plural : Bytes
  pub title : Bytes
  pub noun : Bytes
