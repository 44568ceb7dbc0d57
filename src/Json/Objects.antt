-- ===== src/Json/Objects.antt =====
-- What callers rely on of the objects of the JSON library, nlohmann/json.hpp.
use ur_webif.Base.{true, some, is_some, List, Bytes, ◌≡◌, Assoc, lookup, insert, IsMap}
use ur_webif.Json.{done, JsonLibrary}

pub record ObjectLaws {J : Type 0} (lib : JsonLibrary J) : Type 0 where
  -- `null[key] = value` makes an object, and so it does with a member that is there or not
  pub assign-null :
      (k : Bytes) (v : J) → lib.assign lib.null k v ≡ done (lib.object (insert k v List.[]))
  pub assign-object :
      (m : Assoc J) (k : Bytes) (v : J)
      → lib.assign (lib.object m) k v ≡ done (lib.object (insert k v m))
  pub member-lookup :
      (m : Assoc J) (k : Bytes) (v : J)
      → lookup k m ≡ some v
      → lib.member (lib.object m) k ≡ done (v, lib.object m)
  pub contains-lookup :
      (m : Assoc J) (k : Bytes) → lib.contains (lib.object m) k ≡ is_some (lookup k m)
  -- the items are the members, in some order
  pub items-IsMap : (m : Assoc J) → IsMap m → IsMap (lib.items (lib.object m))
  pub items-lookup :
      (m : Assoc J) (k : Bytes) → IsMap m → lookup k (lib.items (lib.object m)) ≡ lookup k m
  pub parse-dump :
      (j : J) (content : Bytes) → lib.dump j ≡ done content → lib.parse content ≡ done j
  pub to_text-text : (s : Bytes) → lib.to_text (lib.text s) ≡ done s
  pub equals_flag-flag : lib.equals_flag (lib.flag true) true ≡ true
