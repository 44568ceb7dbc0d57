-- ===== src/NetworkOps/Handlers/Nat.antt =====
-- src/network-ops/nat-handler.cpp: NatHandler.
use ur_webif.Base.{Bool, false, [], ◌∷◌, Bytes, codes}
use ur_webif.Run.{Call}
use ur_webif.Json.{JsonLibrary}
use ur_webif.NetworkOps.Kind.{Kind, word}
use ur_webif.NetworkOps.Store.{Store, World, load, save}
use ur_webif.NetworkOps.Rules.{get_all, get_one, create, update, toggle}
use ur_webif.NetworkOps.Deletion.{delete}
use ur_webif.NetworkOps.Requests.{
  handle_get_all, handle_get_one, handle_create, handle_update, handle_delete, handle_request,
}

-- The words of this handler.
abbrev pub nat_rule_kind : Kind
nat_rule_kind = record {
  key = codes "nat_rules";
  id_prefix = codes "nat_";
  active = codes "active";
  inactive = codes "inactive";
  test_ids = codes "test_nat_rule_delete" ∷ codes "temp_nat_rule" ∷ codes "nat_temp" ∷ [];
  makes_array = false;
  test_name = codes "Test NAT Rule for Deletion";
  test_description = codes "Temporary test NAT rule for deletion testing";
  test_fields =
      (codes "type", word (codes "SNAT"))
      ∷ (codes "source", word (codes "192.168.250.0/24"))
      ∷ (codes "destination", word (codes "0.0.0.0/0"))
      ∷ (codes "translation_address", word (codes "10.0.250.1"))
      ∷ (codes "protocol", word (codes "TCP"))
      ∷ [];
  segment = codes "/nat-rules";
  segment_length = 10;
  plural = codes "NAT rules";
  title = codes "NAT rule";
  noun = codes "NAT rule";
}

module _ {J : Type 0} (lib : JsonLibrary J) where
  abbrev pub load_nat_rules : Call (Store J) (Unit {0})
  load_nat_rules = load lib

  abbrev pub save_nat_rules : World → Call (Store J) Bool
  save_nat_rules = save lib

  abbrev pub get_nat_rules : Call (Store J) J
  get_nat_rules = get_all lib nat_rule_kind

  abbrev pub get_nat_rule : Bytes → Call (Store J) J
  get_nat_rule = get_one lib nat_rule_kind

  abbrev pub create_nat_rule : World → J → Call (Store J) Bool
  create_nat_rule = create lib nat_rule_kind

  abbrev pub update_nat_rule : World → Bytes → J → Call (Store J) Bool
  update_nat_rule = update lib nat_rule_kind

  abbrev pub delete_nat_rule : World → Bytes → Call (Store J) Bool
  delete_nat_rule = delete lib nat_rule_kind

  abbrev pub toggle_nat_rule : World → Bytes → Call (Store J) Bool
  toggle_nat_rule = toggle lib nat_rule_kind

  abbrev pub handle_get_nat_rules : World → Call (Store J) Bytes
  handle_get_nat_rules = handle_get_all lib nat_rule_kind

  abbrev pub handle_get_nat_rule : World → Bytes → Call (Store J) Bytes
  handle_get_nat_rule = handle_get_one lib nat_rule_kind

  abbrev pub handle_create_nat_rule : World → Bytes → Call (Store J) Bytes
  handle_create_nat_rule = handle_create lib nat_rule_kind

  abbrev pub handle_update_nat_rule : World → Bytes → Bytes → Call (Store J) Bytes
  handle_update_nat_rule = handle_update lib nat_rule_kind

  abbrev pub handle_delete_nat_rule : World → Bytes → Call (Store J) Bytes
  handle_delete_nat_rule = handle_delete lib nat_rule_kind

  abbrev pub handle_nat_rule_request : World → Bytes → Bytes → Bytes → Call (Store J) Bytes
  handle_nat_rule_request = handle_request lib nat_rule_kind
