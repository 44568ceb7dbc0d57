-- ===== src/NetworkOps/Handlers/StaticRoutes.antt =====
-- src/network-ops/static-routes-handler.cpp: StaticRoutesHandler.
use ur_webif.Base.{Bool, true, false, [], ◌∷◌, Bytes, codes}
use ur_webif.Run.{Call}
use ur_webif.Json.{JsonLibrary}
use ur_webif.NetworkOps.Kind.{Kind, word, amount, choice}
use ur_webif.NetworkOps.Store.{Store, World, load, save}
use ur_webif.NetworkOps.Rules.{get_all, get_one, create, update, toggle}
use ur_webif.NetworkOps.Deletion.{delete}
use ur_webif.NetworkOps.Requests.{
  handle_get_all, handle_get_one, handle_create, handle_update, handle_delete, handle_request,
}

-- The words of this handler.
abbrev pub static_route_kind : Kind
static_route_kind = record {
  key = codes "static_routes";
  id_prefix = codes "route_";
  active = codes "active";
  inactive = codes "inactive";
  test_ids = codes "test_route_delete" ∷ codes "temp_route" ∷ codes "route_temp" ∷ [];
  makes_array = false;
  test_name = codes "Test Static Route for Deletion";
  test_description = codes "Temporary test static route for deletion testing";
  test_fields =
      (codes "destination_network", word (codes "192.168.250.0"))
      ∷ (codes "subnet_mask", word (codes "/24"))
      ∷ (codes "gateway", word (codes "192.168.1.1"))
      ∷ (codes "interface", word (codes "eth0"))
      ∷ (codes "metric", amount 100)
      ∷ (codes "persistent", choice true)
      ∷ (codes "administrative_distance", amount 1)
      ∷ [];
  segment = codes "/static-routes";
  segment_length = 14;
  plural = codes "Static routes";
  title = codes "Static route";
  noun = codes "static route";
}

module _ {J : Type 0} (lib : JsonLibrary J) where
  abbrev pub load_static_routes : Call (Store J) (Unit {0})
  load_static_routes = load lib

  abbrev pub save_static_routes : World → Call (Store J) Bool
  save_static_routes = save lib

  abbrev pub get_static_routes : Call (Store J) J
  get_static_routes = get_all lib static_route_kind

  abbrev pub get_static_route : Bytes → Call (Store J) J
  get_static_route = get_one lib static_route_kind

  abbrev pub create_static_route : World → J → Call (Store J) Bool
  create_static_route = create lib static_route_kind

  abbrev pub update_static_route : World → Bytes → J → Call (Store J) Bool
  update_static_route = update lib static_route_kind

  abbrev pub delete_static_route : World → Bytes → Call (Store J) Bool
  delete_static_route = delete lib static_route_kind

  abbrev pub toggle_static_route : World → Bytes → Call (Store J) Bool
  toggle_static_route = toggle lib static_route_kind

  abbrev pub handle_get_static_routes : World → Call (Store J) Bytes
  handle_get_static_routes = handle_get_all lib static_route_kind

  abbrev pub handle_get_static_route : World → Bytes → Call (Store J) Bytes
  handle_get_static_route = handle_get_one lib static_route_kind

  abbrev pub handle_create_static_route : World → Bytes → Call (Store J) Bytes
  handle_create_static_route = handle_create lib static_route_kind

  abbrev pub handle_update_static_route : World → Bytes → Bytes → Call (Store J) Bytes
  handle_update_static_route = handle_update lib static_route_kind

  abbrev pub handle_delete_static_route : World → Bytes → Call (Store J) Bytes
  handle_delete_static_route = handle_delete lib static_route_kind

  abbrev pub handle_static_route_request : World → Bytes → Bytes → Bytes → Call (Store J) Bytes
  handle_static_route_request = handle_request lib static_route_kind
