-- ===== src/Router.antt =====
-- src/dynamic_router.cpp: DynamicRouter. `R` stands for std::regex, and `regex_match` for
-- std::regex_match, which gives the texts of the groups if the whole path matches.
pub mod Order
use ur_webif.Base.{
  Bool, true, false, Option, none, some, List, [], ◌∷◌, ◌++◌, Bytes, codes, map, lookup, insert,
  Assoc,
}

abbrev pub Handler : Type 0
Handler = Bytes → Assoc Bytes → Bytes → Bytes

pub record RoutePattern (R : Type 0) : Type 0 where
  pub pattern : Bytes
  pub regex_pattern : R
  pub param_names : List Bytes
  pub handler : Handler

pub record RouteMatch : Type 0 where
  pub matched : Bool
  pub path_params : Assoc Bytes
  pub matched_pattern : Bytes

pub record DynamicRouter (R : Type 0) : Type 0 where
  pub dynamic_routes : List (RoutePattern R)
  pub static_routes : Assoc Handler

-- The parameters of the path, by the names of the groups; the loop ends with the shorter list.
unfoldable pub set_params : List Bytes → List Bytes → Assoc Bytes → Assoc Bytes
unfolding insert
set_params [] groups params = params
set_params (name ∷ names) [] params = params
set_params (name ∷ names) (group ∷ groups) params =
    set_params names groups (insert name group params)

abbrev pub key_of : Bytes × Handler → Bytes
key_of (path, handler) = path

-- The answer where no route matches.
abbrev pub not_found : Bytes → Bytes
not_found path =
    codes "{\"error\":\"Route not found\",\"path\":\"" ++ (path ++ codes "\",\"status\":404}")

abbrev pub no_match : RouteMatch
no_match = record { matched = false; path_params = []; matched_pattern = [] }

module _ {R : Type 0} (regex_match : Bytes → R → Option (List Bytes)) where
  -- A pattern with what compilePattern makes of it, the regular expression and the names.
  unfoldable pub add_route : Bytes → Handler → R × List Bytes → DynamicRouter R → DynamicRouter R
  add_route pattern handler (regex, names) router = record router {
    dynamic_routes =
        router.dynamic_routes
        ++ record {
          pattern = pattern;
          regex_pattern = regex;
          param_names = names;
          handler = handler;
        }
          ∷ [];
  }

  unfoldable pub add_static_route : Bytes → Handler → DynamicRouter R → DynamicRouter R
  unfolding insert
  add_static_route path handler router = record router {
    static_routes = insert path handler router.static_routes;
  }

  -- The loops of processRequest and findMatch over the dynamic routes.
  unfoldable pub process_dynamic :
      Bytes → Bytes → Assoc Bytes → Bytes → List (RoutePattern R) → Bytes
  unfolding set_params
  process_dynamic method path query body [] = not_found path
  process_dynamic method path query body (route ∷ routes) =
      let rest = process_dynamic method path query body routes in
      elim (regex_match path route.regex_pattern) [
        | none ↦ rest
        | some groups ↦ route.handler method (set_params route.param_names groups query) body
      ]

  unfoldable pub process_request : DynamicRouter R → Bytes → Bytes → Assoc Bytes → Bytes → Bytes
  unfolding lookup process_dynamic
  process_request router method path query body = elim (lookup path router.static_routes) [
    | some handler ↦ handler method query body
    | none ↦ process_dynamic method path query body router.dynamic_routes
  ]

  unfoldable pub find_dynamic : Bytes → List (RoutePattern R) → RouteMatch
  unfolding set_params
  find_dynamic path [] = no_match
  find_dynamic path (route ∷ routes) =
      let rest = find_dynamic path routes in
      elim (regex_match path route.regex_pattern) [
        | none ↦ rest
        | some groups ↦ record {
          matched = true;
          path_params = set_params route.param_names groups [];
          matched_pattern = route.pattern;
        }
      ]

  unfoldable pub find_match : DynamicRouter R → Bytes → RouteMatch
  unfolding lookup find_dynamic
  find_match router path = elim (lookup path router.static_routes) [
    | some handler ↦ record { matched = true; path_params = []; matched_pattern = path }
    | none ↦ find_dynamic path router.dynamic_routes
  ]

  abbrev pub pattern_of : RoutePattern R → Bytes
  pattern_of route = route.pattern

  unfoldable pub get_registered_patterns : DynamicRouter R → List Bytes
  get_registered_patterns router =
      map key_of router.static_routes ++ map pattern_of router.dynamic_routes
