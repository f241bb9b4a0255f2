-- ===== src/Outgoing/Routes.antt =====
-- An event that is broadcast on a route, on its way through the handlers of outgoing events.
use pondsocket.Prelude.{
  String, true, false, ◌||◌, none, some, List, [], ◌∷◌, ◌++◌, ◌≡◌, if◌then◌else◌, all, or_else,
}
use pondsocket.JsMap.{JsMap, get}
use pondsocket.Protocol.{ChannelEvent, ok}
use pondsocket.Endpoint.State.{EventParams}
use pondsocket.Route.{route_path, build_pond_route, compile_pond_route, CompiledRoute}
use pondsocket.Route.Texts.{codes, occurs}
use pondsocket.Route.Pattern.{is_dot}
use pondsocket.Route.RoundTrip.{IsGiven, parse_pond_route-build}
use pondsocket.Outgoing.{OutgoingContext, OutgoingHandler, OutgoingScript, process_outgoing_events}
use pondsocket.Outgoing.Laws.{
  NoneMatches, blocks, transformed, has_failed, context_for, process_outgoing_events-decides,
}
use pondsocket.Outgoing.Unhandled.{any_route-ok}

module _ (search_params : String → List (String × String)) where
  -- An event whose name was built from a route goes to the handler that was registered for that route, if no handler
  -- before it matches: the handler is called with the parameters of the name and decides with them whether and with
  -- which payload the event reaches the user. Each key has the value that the name was built with, the wildcard's
  -- with one slash put in front of it and runs of slashes made one; a key `__proto__` has none. A text for
  -- the wildcard must have no `?` and no line terminator, and an empty query text has no parameters.
  pub process_outgoing_events-built :
      (route : String) (given : JsMap String) (compiled : CompiledRoute)
      (handler : OutgoingContext → OutgoingScript) (hs rest : List OutgoingHandler)
      (v : ChannelEvent) (user : String)
      → let star = codes (or_else (get "*" given) "") in
        search_params "" ≡ []
        → all is_dot star ≡ true
        → occurs 63 star ≡ false
        → compile_pond_route route ≡ ok compiled
        → build_pond_route route given ≡ ok v.event
        → NoneMatches v.event hs
        → (p : EventParams) × IsGiven given compiled.keys p
          × (let script = handler (context_for v user p) in
              process_outgoing_events
                (route_path search_params "*")
                (hs ++ record { path = route_path search_params route; handler = handler } ∷ rest)
                v
                user
              ≡ ok (
                  if blocks script.acts || has_failed script.ending
                  then none
                  else some (record v { payload = transformed script.acts v.payload })))
  unfolding route_path
  process_outgoing_events-built route given compiled handler hs rest v user empty dots lacking fits
        built misses =
      let (first, e) = any_route-ok search_params v.event in
      let (p, parsed, is_given) =
        parse_pond_route-build search_params route given compiled v.event empty dots lacking fits
          built in
      (
        p,
        is_given,
        process_outgoing_events-decides (route_path search_params "*") v user hs misses rest
            (record { path = route_path search_params route; handler = handler }) first p e parsed,
      )
