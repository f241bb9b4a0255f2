-- ===== src/Outgoing/Tests.antt =====
-- Runs of outgoing events, at which the theorems apply.
use pondsocket.Prelude.{String, List, [], ◌∷◌, some, none, ◌≡◌, refl, or_else, if◌then◌else◌, ◌||◌}
use pondsocket.JsMap.{get}
use pondsocket.Protocol.{ChannelEvent, ServerActions, ok, err, plain_error, str}
use pondsocket.Endpoint.State.{PondPath, EventParams}
use pondsocket.Route.{route_path, build_pond_route, compile_pond_route, CompiledRoute}
use pondsocket.Route.Pattern.{char, segment_group}
use pondsocket.Outgoing.{
  OutgoingContext, OutgoingScript, block_event, transform_payload, process_outgoing_events,
}
use pondsocket.Outgoing.Laws.{
  blocks, transformed, has_failed, context_for, process_outgoing_events-decides,
}
use pondsocket.Outgoing.Unhandled.{process_outgoing_events-unhandled}
use pondsocket.Route.RoundTrip.{IsGiven}
use pondsocket.Outgoing.Routes.{process_outgoing_events-built}

abbrev no_query : String → List (String × String)
no_query _ = []

abbrev event_named : String → ChannelEvent
event_named name = record {
  action = ServerActions.broadcast;
  event = name;
  payload = ("text", str "hi") ∷ [];
  channel_name = "room";
  request_id = "r1";
}

abbrev no_params : EventParams
no_params = record { params = []; query = [] }

abbrev always : PondPath
always = record { key = "always"; compile = ok tt; parse = λ _. ok (some no_params) }

abbrev never : PondPath
never = record { key = "never"; compile = ok tt; parse = λ _. ok none }

-- It sends the parameter `id` that it is called with.
abbrev echoing : OutgoingContext → OutgoingScript
echoing c = record {
  acts =
      transform_payload
        (("id", str (or_else (get "id" (or_else c.params no_params).params) "")) ∷ [])
      ∷ [];
  ending = none;
}

abbrev hushing : OutgoingContext → OutgoingScript
hushing c = record { acts = block_event ∷ []; ending = none }

abbrev changing : OutgoingContext → OutgoingScript
changing c = record { acts = transform_payload (("text", str "yo") ∷ []) ∷ []; ending = none }

process_outgoing_events-decides_example :
    process_outgoing_events always
      (record { path = never; handler = hushing }
        ∷ record { path = always; handler = changing }
        ∷ record { path = always; handler = hushing }
        ∷ [])
      (event_named "say")
      "ann"
    ≡ ok (some (record (event_named "say") { payload = ("text", str "yo") ∷ [] }))
process_outgoing_events-decides_example =
    process_outgoing_events-decides always (event_named "say") "ann"
      (record { path = never; handler = hushing } ∷ []) (refl, tt)
      (record { path = always; handler = hushing } ∷ [])
      (record { path = always; handler = changing }) (some no_params) no_params refl refl

process_outgoing_events-unhandled_example :
    process_outgoing_events (route_path no_query "*") [] (event_named "a\nb") "ann"
    ≡ err (plain_error "Cannot read properties of null (reading 'query')")
process_outgoing_events-unhandled_example =
    process_outgoing_events-unhandled no_query (event_named "a\nb") "ann" [] tt

abbrev say_route : CompiledRoute
say_route = record { keys = "id" ∷ []; pattern = char 115 ∷ char 47 ∷ segment_group ∷ [] }

say_route_compiles : compile_pond_route "s/:id" ≡ ok say_route
unfolding compile_pond_route
say_route_compiles = refl

say_built : build_pond_route "s/:id" (("id", "x y") ∷ []) ≡ ok "s/x%20y"
unfolding build_pond_route
say_built = refl

process_outgoing_events-built_example :
    (p : EventParams) × IsGiven (("id", "x y") ∷ []) say_route.keys p
    × (let script = echoing (context_for (event_named "s/x%20y") "ann" p) in
        process_outgoing_events
          (route_path no_query "*")
          (record { path = route_path no_query "s/:id"; handler = echoing } ∷ [])
          (event_named "s/x%20y")
          "ann"
        ≡ ok (
            if blocks script.acts || has_failed script.ending
            then none
            else some (record (event_named "s/x%20y") {
              payload = transformed script.acts (event_named "s/x%20y").payload;
            })))
unfolding get
process_outgoing_events-built_example =
    process_outgoing_events-built no_query "s/:id" (("id", "x y") ∷ []) say_route echoing [] []
      (event_named "s/x%20y") "ann" refl refl refl say_route_compiles say_built tt
