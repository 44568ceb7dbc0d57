-- ===== src/NetworkOps/Handlers/Bridge.antt =====
-- src/network-ops/bridge-handler.cpp: BridgeHandler.
use ur_webif.Base.{Bool, true, [], ◌∷◌, Bytes, codes}
use ur_webif.Run.{Call}
use ur_webif.Json.{JsonLibrary}
use ur_webif.NetworkOps.Kind.{Kind, word, amount, choice, words}
use ur_webif.NetworkOps.Store.{Store, World, load, save}
use ur_webif.NetworkOps.Rules.{get_all, get_one, create, update, toggle}
use ur_webif.NetworkOps.Deletion.{delete}
use ur_webif.NetworkOps.Requests.{
  handle_get_all, handle_get_one, handle_create, handle_update, handle_delete, handle_request,
}

-- The words of this handler.
abbrev pub bridge_kind : Kind
bridge_kind = record {
  key = codes "bridges";
  id_prefix = codes "bridge_";
  active = codes "Up";
  inactive = codes "Down";
  test_ids = codes "test_bridge_delete" ∷ codes "temp_bridge" ∷ codes "bridge_temp" ∷ [];
  makes_array = true;
  test_name = codes "Test Bridge for Deletion";
  test_description = codes "Temporary test bridge for deletion testing";
  test_fields =
      (codes "ip_address", word (codes "192.168.250.1/24"))
      ∷ (codes "member_interfaces", words (codes "eth0" ∷ []))
      ∷ (codes "stp_enabled", choice true)
      ∷ (codes "priority", amount 32768)
      ∷ [];
  segment = codes "/bridges";
  segment_length = 8;
  plural = codes "Bridges";
  title = codes "Bridge";
  noun = codes "bridge";
}

module _ {J : Type 0} (lib : JsonLibrary J) where
  abbrev pub load_bridges : Call (Store J) (Unit {0})
  load_bridges = load lib

  abbrev pub save_bridges : World → Call (Store J) Bool
  save_bridges = save lib

  abbrev pub get_bridges : Call (Store J) J
  get_bridges = get_all lib bridge_kind

  abbrev pub get_bridge : Bytes → Call (Store J) J
  get_bridge = get_one lib bridge_kind

  abbrev pub create_bridge : World → J → Call (Store J) Bool
  create_bridge = create lib bridge_kind

  abbrev pub update_bridge : World → Bytes → J → Call (Store J) Bool
  update_bridge = update lib bridge_kind

  abbrev pub delete_bridge : World → Bytes → Call (Store J) Bool
  delete_bridge = delete lib bridge_kind

  abbrev pub toggle_bridge : World → Bytes → Call (Store J) Bool
  toggle_bridge = toggle lib bridge_kind

  abbrev pub handle_get_bridges : World → Call (Store J) Bytes
  handle_get_bridges = handle_get_all lib bridge_kind

  abbrev pub handle_get_bridge : World → Bytes → Call (Store J) Bytes
  handle_get_bridge = handle_get_one lib bridge_kind

  abbrev pub handle_create_bridge : World → Bytes → Call (Store J) Bytes
  handle_create_bridge = handle_create lib bridge_kind

  abbrev pub handle_update_bridge : World → Bytes → Bytes → Call (Store J) Bytes
  handle_update_bridge = handle_update lib bridge_kind

  abbrev pub handle_delete_bridge : World → Bytes → Call (Store J) Bytes
  handle_delete_bridge = handle_delete lib bridge_kind

  abbrev pub handle_bridge_request : World → Bytes → Bytes → Bytes → Call (Store J) Bytes
  handle_bridge_request = handle_request lib bridge_kind
