-- ===== src/NetworkOps/Handlers/Firewall.antt =====
-- src/network-ops/firewall-handler.cpp: FirewallHandler.
use ur_webif.Base.{Bool, true, false, [], ◌∷◌, Bytes, codes}
use ur_webif.Run.{Call}
use ur_webif.Json.{JsonLibrary}
use ur_webif.NetworkOps.Kind.{Kind, word, choice}
use ur_webif.NetworkOps.Store.{Store, World, load, save}
use ur_webif.NetworkOps.Rules.{get_all, get_one, create, update, toggle}
use ur_webif.NetworkOps.Deletion.{delete}
use ur_webif.NetworkOps.Requests.{
  handle_get_all, handle_get_one, handle_create, handle_update, handle_delete, handle_request,
}

-- The words of this handler.
abbrev pub firewall_rule_kind : Kind
firewall_rule_kind = record {
  key = codes "firewall_rules";
  id_prefix = codes "fw_";
  active = codes "active";
  inactive = codes "inactive";
  test_ids = codes "test_fw_rule_delete" ∷ codes "temp_fw_rule" ∷ codes "fw_temp" ∷ [];
  makes_array = false;
  test_name = codes "Test Firewall Rule for Deletion";
  test_description = codes "Temporary test firewall rule for deletion testing";
  test_fields =
      (codes "action", word (codes "ACCEPT"))
      ∷ (codes "direction", word (codes "INPUT"))
      ∷ (codes "protocol", word (codes "TCP"))
      ∷ (codes "source", word (codes "192.168.250.0/24"))
      ∷ (codes "destination", word (codes "0.0.0.0/0"))
      ∷ (codes "destination_ports", word (codes "80"))
      ∷ (codes "logging", choice true)
      ∷ [];
  segment = codes "/firewall-rules";
  segment_length = 15;
  plural = codes "Firewall rules";
  title = codes "Firewall rule";
  noun = codes "firewall rule";
}

module _ {J : Type 0} (lib : JsonLibrary J) where
  abbrev pub load_firewall_rules : Call (Store J) (Unit {0})
  load_firewall_rules = load lib

  abbrev pub save_firewall_rules : World → Call (Store J) Bool
  save_firewall_rules = save lib

  abbrev pub get_firewall_rules : Call (Store J) J
  get_firewall_rules = get_all lib firewall_rule_kind

  abbrev pub get_firewall_rule : Bytes → Call (Store J) J
  get_firewall_rule = get_one lib firewall_rule_kind

  abbrev pub create_firewall_rule : World → J → Call (Store J) Bool
  create_firewall_rule = create lib firewall_rule_kind

  abbrev pub update_firewall_rule : World → Bytes → J → Call (Store J) Bool
  update_firewall_rule = update lib firewall_rule_kind

  abbrev pub delete_firewall_rule : World → Bytes → Call (Store J) Bool
  delete_firewall_rule = delete lib firewall_rule_kind

  abbrev pub toggle_firewall_rule : World → Bytes → Call (Store J) Bool
  toggle_firewall_rule = toggle lib firewall_rule_kind

  abbrev pub handle_get_firewall_rules : World → Call (Store J) Bytes
  handle_get_firewall_rules = handle_get_all lib firewall_rule_kind

  abbrev pub handle_get_firewall_rule : World → Bytes → Call (Store J) Bytes
  handle_get_firewall_rule = handle_get_one lib firewall_rule_kind

  abbrev pub handle_create_firewall_rule : World → Bytes → Call (Store J) Bytes
  handle_create_firewall_rule = handle_create lib firewall_rule_kind

  abbrev pub handle_update_firewall_rule : World → Bytes → Bytes → Call (Store J) Bytes
  handle_update_firewall_rule = handle_update lib firewall_rule_kind

  abbrev pub handle_delete_firewall_rule : World → Bytes → Call (Store J) Bytes
  handle_delete_firewall_rule = handle_delete lib firewall_rule_kind

  abbrev pub handle_firewall_rule_request : World → Bytes → Bytes → Bytes → Call (Store J) Bytes
  handle_firewall_rule_request = handle_request lib firewall_rule_kind
