-- ===== src/NetworkOps/Handlers/Vlan.antt =====
-- src/network-ops/vlan-handler.cpp: VlanHandler.
use ur_webif.Base.{Bool, false, [], ◌∷◌, Bytes, codes}
use ur_webif.Run.{Call}
use ur_webif.Json.{JsonLibrary}
use ur_webif.NetworkOps.Kind.{Kind, word, amount, words}
use ur_webif.NetworkOps.Store.{Store, World, load, save}
use ur_webif.NetworkOps.Rules.{get_all, get_one, create, update, toggle}
use ur_webif.NetworkOps.Deletion.{delete}
use ur_webif.NetworkOps.Requests.{
  handle_get_all, handle_get_one, handle_create, handle_update, handle_delete, handle_request,
}

-- The words of this handler.
abbrev pub vlan_kind : Kind
vlan_kind = record {
  key = codes "vlans";
  id_prefix = codes "vlan_";
  active = codes "Active";
  inactive = codes "Inactive";
  test_ids = codes "test_vlan_delete" ∷ codes "temp_vlan" ∷ codes "vlan_temp" ∷ [];
  makes_array = false;
  test_name = codes "Test VLAN for Deletion";
  test_description = codes "Temporary test VLAN for deletion testing";
  test_fields =
      (codes "vlan_id", amount 250)
      ∷ (codes "tagged", word (codes "tagged"))
      ∷ (codes "priority", amount 1)
      ∷ (codes "assigned_ports", words (codes "Port1" ∷ codes "Port2" ∷ []))
      ∷ [];
  segment = codes "/vlans";
  segment_length = 6;
  plural = codes "VLANs";
  title = codes "VLAN";
  noun = codes "VLAN";
}

module _ {J : Type 0} (lib : JsonLibrary J) where
  abbrev pub load_vlans : Call (Store J) (Unit {0})
  load_vlans = load lib

  abbrev pub save_vlans : World → Call (Store J) Bool
  save_vlans = save lib

  abbrev pub get_vlans : Call (Store J) J
  get_vlans = get_all lib vlan_kind

  abbrev pub get_vlan : Bytes → Call (Store J) J
  get_vlan = get_one lib vlan_kind

  abbrev pub create_vlan : World → J → Call (Store J) Bool
  create_vlan = create lib vlan_kind

  abbrev pub update_vlan : World → Bytes → J → Call (Store J) Bool
  update_vlan = update lib vlan_kind

  abbrev pub delete_vlan : World → Bytes → Call (Store J) Bool
  delete_vlan = delete lib vlan_kind

  abbrev pub toggle_vlan : World → Bytes → Call (Store J) Bool
  toggle_vlan = toggle lib vlan_kind

  abbrev pub handle_get_vlans : World → Call (Store J) Bytes
  handle_get_vlans = handle_get_all lib vlan_kind

  abbrev pub handle_get_vlan : World → Bytes → Call (Store J) Bytes
  handle_get_vlan = handle_get_one lib vlan_kind

  abbrev pub handle_create_vlan : World → Bytes → Call (Store J) Bytes
  handle_create_vlan = handle_create lib vlan_kind

  abbrev pub handle_update_vlan : World → Bytes → Bytes → Call (Store J) Bytes
  handle_update_vlan = handle_update lib vlan_kind

  abbrev pub handle_delete_vlan : World → Bytes → Call (Store J) Bytes
  handle_delete_vlan = handle_delete lib vlan_kind

  abbrev pub handle_vlan_request : World → Bytes → Bytes → Bytes → Call (Store J) Bytes
  handle_vlan_request = handle_request lib vlan_kind
