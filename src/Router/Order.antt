-- ===== src/Router/Order.antt =====
-- Which of the routes answers a request.
use ur_webif.Base.{
  true, false, ◌≢◌, lookup-insert, eqb, eqb_iff, Bool-cases, inl, inr, Option, none, some, List, [],
  ◌∷◌, ◌++◌, Bytes, ◌≡◌, refl, arith, lookup, Assoc,
}
use ur_webif.Router.{
  Handler, RoutePattern, DynamicRouter, not_found, add_route, add_static_route, process_dynamic,
  process_request, find_dynamic, find_match,
}

-- What is added by addRoute, or by addStaticRoute.
pub data Addition (R : Type 0) : Type 0 where
  pattern_route : Bytes → Handler → R × List Bytes → Addition R
  static_route : Bytes → Handler → Addition R

-- A static route overwrites that of its own path and goes before the patterns.
abbrev pub IsElsewhere : {R : Type 0} → Bytes → Addition R → Type 0
IsElsewhere path (pattern_route pattern handler compiled) = Unit
IsElsewhere path (static_route other handler) = other ≢ path

eqb_differ : (a b : Bytes) → a ≢ b → eqb a b ≡ false
eqb_differ a b ne = elim (Bool-cases (eqb a b)) [
  | inl e ↦ elim (ne ((eqb_iff a b).0 e)) [ ]
  | inr e ↦ e
]

module _ {R : Type 0} (regex_match : Bytes → R → Option (List Bytes)) where
  abbrev route_of : Bytes → Handler → R × List Bytes → RoutePattern R
  route_of pattern handler (regex, names) = record {
    pattern = pattern;
    regex_pattern = regex;
    param_names = names;
    handler = handler;
  }

  process_dynamic-append :
      (method path : Bytes) (query : Assoc Bytes) (body : Bytes) (routes : List (RoutePattern R))
      (more : RoutePattern R)
      → (find_dynamic regex_match path routes).matched ≡ true
      → process_dynamic regex_match method path query body (routes ++ more ∷ [])
        ≡ process_dynamic regex_match method path query body routes
  unfolding process_dynamic find_dynamic
  process_dynamic-append method path query body [] more h = ground (arith, h)
  process_dynamic-append method path query body (route ∷ routes) more h =
      go (regex_match path route.regex_pattern) refl
        (process_dynamic-append method path query body routes more)
    where
      go :
          (m : Option (List Bytes))
          → regex_match path route.regex_pattern ≡ m
          → ((find_dynamic regex_match path routes).matched ≡ true
              → process_dynamic regex_match method path query body (routes ++ more ∷ [])
                ≡ process_dynamic regex_match method path query body routes)
          → process_dynamic regex_match method path query body (route ∷ (routes ++ more ∷ []))
            ≡ process_dynamic regex_match method path query body (route ∷ routes)
      go none e k = rw (process_dynamic, e) (k (rw (find_dynamic, e) at h))
      go (some groups) e k = rw (process_dynamic, e) refl

  process_request-add_route :
      (router : DynamicRouter R) (method path : Bytes) (query : Assoc Bytes) (body : Bytes)
      (pattern : Bytes) (handler : Handler) (compiled : R × List Bytes)
      → (find_match regex_match router path).matched ≡ true
      → process_request regex_match
          (add_route regex_match pattern handler compiled router)
          method
          path
          query
          body
        ≡ process_request regex_match router method path query body
  unfolding process_request find_match add_route
  process_request-add_route router method path query body pattern handler compiled h =
      go (lookup path router.static_routes) refl
    where
      go :
          (o : Option Handler)
          → lookup path router.static_routes ≡ o
          → process_request regex_match
              (add_route regex_match pattern handler compiled router)
              method
              path
              query
              body
            ≡ process_request regex_match router method path query body
      go (some static) e = rw (process_request, e) refl
      go none e =
          rw (process_request, e)
            (process_dynamic-append method path query body router.dynamic_routes
              (route_of pattern handler compiled) (rw (find_match, e) at h))

  abbrev pub apply_addition : Addition R → DynamicRouter R → DynamicRouter R
  apply_addition (pattern_route pattern handler compiled) router =
      add_route regex_match pattern handler compiled router
  apply_addition (static_route path handler) router =
      add_static_route regex_match path handler router

  process_request-add_static_route :
      (router : DynamicRouter R) (method path : Bytes) (query : Assoc Bytes) (body : Bytes)
      (other : Bytes) (handler : Handler)
      → other ≢ path
      → process_request regex_match
          (add_static_route regex_match other handler router)
          method
          path
          query
          body
        ≡ process_request regex_match router method path query body
  unfolding process_request add_static_route
  process_request-add_static_route router method path query body other handler ne =
      rw
        (
          process_request,
          lookup-insert other path handler router.static_routes,
          eqb_differ other path ne,
        )
        refl

  -- A path for which findMatch finds a route is answered by processRequest as before, whatever
  -- pattern is added by addRoute afterwards, and whatever route for another path is added by
  -- addStaticRoute.
  pub process_request-addition :
      (router : DynamicRouter R) (method path : Bytes) (query : Assoc Bytes) (body : Bytes)
      (addition : Addition R)
      → (find_match regex_match router path).matched ≡ true
      → IsElsewhere path addition
      → process_request regex_match (apply_addition addition router) method path query body
        ≡ process_request regex_match router method path query body
  process_request-addition router method path query body (pattern_route pattern handler compiled) h
        elsewhere =
      process_request-add_route router method path query body pattern handler compiled h
  process_request-addition router method path query body (static_route other handler) h elsewhere =
      process_request-add_static_route router method path query body other handler elsewhere

  process_dynamic-unmatched :
      (method path : Bytes) (query : Assoc Bytes) (body : Bytes) (routes : List (RoutePattern R))
      → (find_dynamic regex_match path routes).matched ≡ false
      → process_dynamic regex_match method path query body routes ≡ not_found path
  unfolding process_dynamic find_dynamic
  process_dynamic-unmatched method path query body [] h = refl
  process_dynamic-unmatched method path query body (route ∷ routes) h =
      go (regex_match path route.regex_pattern) refl
        (process_dynamic-unmatched method path query body routes)
    where
      go :
          (m : Option (List Bytes))
          → regex_match path route.regex_pattern ≡ m
          → ((find_dynamic regex_match path routes).matched ≡ false
              → process_dynamic regex_match method path query body routes ≡ not_found path)
          → process_dynamic regex_match method path query body (route ∷ routes) ≡ not_found path
      go none e k = rw (process_dynamic, e) (k (rw (find_dynamic, e) at h))
      go (some groups) e k = ground (arith, rw (find_dynamic, e) at h)

  -- A path for which findMatch finds no route is answered by processRequest with the error 404.
  pub process_request-unmatched :
      (router : DynamicRouter R) (method path : Bytes) (query : Assoc Bytes) (body : Bytes)
      → (find_match regex_match router path).matched ≡ false
      → process_request regex_match router method path query body ≡ not_found path
  unfolding process_request find_match
  process_request-unmatched router method path query body h =
      go (lookup path router.static_routes) refl
    where
      go :
          (o : Option Handler)
          → lookup path router.static_routes ≡ o
          → process_request regex_match router method path query body ≡ not_found path
      go (some static) e = ground (arith, rw (find_match, e) at h)
      go none e =
          rw (process_request, e)
            (process_dynamic-unmatched method path query body router.dynamic_routes
              (rw (find_match, e) at h))
