-- ===== src/Route/Tests.antt =====
-- Runs of the routes, at which the theorems apply.
use pondsocket.Prelude.{String, true, List, [], ◌∷◌, some, ◌≡◌, refl, ◌↔◌, all, not, ◌&&◌}
use pondsocket.JsMap.{JsMap, get}
use pondsocket.Protocol.{ok, is_ok}
use pondsocket.Route.{parse_pond_route, build_pond_route, compile_pond_route, CompiledRoute}
use pondsocket.Route.Texts.{codes, split, occurs}
use pondsocket.Route.Pattern.{char, segment_group, rest_group, exec}
use pondsocket.Endpoint.State.{EventParams}
use pondsocket.Route.RoundTrip.{IsGiven, parse_pond_route-build}
use pondsocket.Route.Reading.{IsRead, exec-reads_iff}
use pondsocket.Route.Building.{
  is_segment, are_new, all_keys, has_value, compile_pond_route-is_ok, build_pond_route-is_ok,
}

abbrev no_query : String → List (String × String)
no_query _ = []

abbrev room : JsMap String
room = ("id", "a b/€") ∷ ("*", "//x//y") ∷ []

abbrev room_route : CompiledRoute
room_route = record {
  keys = "id" ∷ "*" ∷ [];
  pattern = char 114 ∷ char 47 ∷ segment_group ∷ char 47 ∷ rest_group ∷ [];
}

room_route_compiles : compile_pond_route "r/:id/*" ≡ ok room_route
unfolding compile_pond_route
room_route_compiles = refl

built : build_pond_route "r/:id/*" room ≡ ok "r/a%20b%2F%E2%82%AC/x//y"
unfolding build_pond_route
built = refl

parse_pond_route-build_example :
    (p : EventParams) × (parse_pond_route no_query "r/:id/*" "r/a%20b%2F%E2%82%AC/x//y"
      ≡ ok (some p))
    × IsGiven room room_route.keys p
unfolding get
parse_pond_route-build_example =
    parse_pond_route-build no_query "r/:id/*" room room_route "r/a%20b%2F%E2%82%AC/x//y" refl refl
      refl room_route_compiles built

exec-reads_iff_example :
    (exec room_route.pattern (codes "r/7/a/b") ≡ some (codes "7" ∷ codes "a/b" ∷ []))
    ↔ IsRead true (split 47 (codes "r/:id/*")) (codes "r/7/a/b") (codes "7" ∷ codes "a/b" ∷ [])
exec-reads_iff_example =
    exec-reads_iff "r/:id/*" room_route (codes "r/7/a/b") (codes "7" ∷ codes "a/b" ∷ [])
      room_route_compiles

compile_pond_route-is_ok_example : is_ok (compile_pond_route "a/:id/:id") ≡ (
    not (occurs 63 (codes "a/:id/:id"))
    && all is_segment (split 47 (codes "a/:id/:id"))
    && are_new [] (all_keys (split 47 (codes "a/:id/:id"))))
compile_pond_route-is_ok_example = compile_pond_route-is_ok "a/:id/:id"

build_pond_route-is_ok_example :
    is_ok (build_pond_route "r/:id/*" (("id", "7") ∷ []))
    ≡ all (has_value (("id", "7") ∷ [])) ("id" ∷ "*" ∷ [])
build_pond_route-is_ok_example =
    build_pond_route-is_ok "r/:id/*" (("id", "7") ∷ []) room_route room_route_compiles
