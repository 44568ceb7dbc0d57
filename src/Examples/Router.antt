-- ===== src/Examples/Router.antt =====
-- A router with one pattern; the regular expressions are texts that match just themselves.
use ur_webif.Base.{
  Option, none, some, List, [], ◌∷◌, ◌++◌, Bytes, codes, ◌≡◌, refl, eqb, if◌then◌else◌, lookup,
}
use ur_webif.Router.{Handler, DynamicRouter, add_route, process_request, find_match, find_dynamic}
use ur_webif.Router.Order.{pattern_route, process_request-addition}

abbrev same : Bytes → Bytes → Option (List Bytes)
same path regex = if eqb path regex then some [] else none

abbrev echo : Bytes → Handler
echo answer method params body = answer ++ method

abbrev router : DynamicRouter Bytes
router = record {
  dynamic_routes =
      record {
        pattern = codes "/a";
        regex_pattern = codes "/a";
        param_names = [];
        handler = echo (codes "first ");
      }
      ∷ [];
  static_routes = [];
}

process_request-addition_example :
    process_request same
      (add_route same (codes "/a") (echo (codes "second ")) (codes "/a", []) router)
      (codes "GET")
      (codes "/a")
      []
      []
    ≡ process_request same router (codes "GET") (codes "/a") [] []
unfolding find_match find_dynamic lookup eqb
process_request-addition_example =
    process_request-addition same router (codes "GET") (codes "/a") [] []
      (pattern_route (codes "/a") (echo (codes "second ")) (codes "/a", [])) refl tt
