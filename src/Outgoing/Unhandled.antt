-- ===== src/Outgoing/Unhandled.antt =====
-- Outgoing events that no handler's path matches.
use pondsocket.Prelude.{
  String, true, false, Option, none, some, List, [], ◌∷◌, ◌≡◌, refl, ◌∙◌, arith, if◌then◌else◌, all,
  Bool-cases, inl, inr, append-nil, subst,
}
use pondsocket.Protocol.{ChannelEvent, plain_error, ok, err}
use pondsocket.Endpoint.State.{EventParams}
use pondsocket.Route.{
  route_path, matched, first_group, compile_pond_route, read_params, param_value, CompiledRoute,
  set_field,
}
use pondsocket.Route.Texts.{Text, codes, split, collapse, text_of}
use pondsocket.Route.RoundTrip.{matched_lem, parse-compiled}
use pondsocket.Route.Pattern.{rest_group, is_dot, exec, greedy}
use pondsocket.Outgoing.{
  OutgoingHandler, process_outgoing_events, outgoing_result, new_outgoing_context, run_async,
  event_of, outgoing_final,
}
use pondsocket.Outgoing.Laws.{NoneMatches, process_outgoing-skips}

-- A text that a wildcard takes.
exec-rest_group :
    (s : Text) → exec (rest_group ∷ []) s ≡ (if all is_dot s then some (s ∷ []) else none)
unfolding exec greedy
exec-rest_group [] = refl
exec-rest_group (c ∷ s) = rw (exec-rest_group s) (ground arith)

module _ (search_params : String → List (String × String)) (address : String) where
  abbrev path : Text
  path = first_group (split 63 (codes address))

  abbrev any_route : CompiledRoute
  any_route = record { keys = "*" ∷ []; pattern = rest_group ∷ [] }

  any_route-compiles : compile_pond_route "*" ≡ ok any_route
  unfolding compile_pond_route
  any_route-compiles = refl

  read_any :
      (groups : Text)
      → read_params ("*" ∷ []) (groups ∷ []) [] ≡ ok (("*", text_of (collapse (47 ∷ groups))) ∷ [])
  unfolding read_params param_value set_field
  read_any groups = refl

  matched_none :
      (pieces : List Text)
      → exec (rest_group ∷ []) (first_group pieces) ≡ none
      → matched search_params any_route pieces ≡ ok none
  unfolding matched
  matched_none pieces h = ground arith

  any_route-parse :
      (route_path search_params "*").parse address
      ≡ matched search_params any_route (split 63 (codes address))
  unfolding route_path
  any_route-parse = parse-compiled search_params "*" any_route address any_route-compiles

  any_route-matches :
      all is_dot path ≡ true
      → (p : EventParams) × ((route_path search_params "*").parse address ≡ ok (some p))
  any_route-matches h = (
    _,
    any_route-parse
        ∙ matched_lem search_params any_route (split 63 (codes address)) (path ∷ []) _
            (exec-rest_group path ∙ rw (h) refl) (read_any path),
  )

  any_route-misses :
      all is_dot path ≡ false → (route_path search_params "*").parse address ≡ ok none
  any_route-misses h =
      any_route-parse ∙ matched_none (split 63 (codes address)) (exec-rest_group path ∙ rw (h) refl)

  pub any_route-ok :
      (first : Option EventParams) × ((route_path search_params "*").parse address ≡ ok first)
  any_route-ok = elim (Bool-cases (all is_dot path)) [
    | inl dots ↦ let (p, e) = any_route-matches dots in (some p, e)
    | inr broken ↦ (none, any_route-misses broken)
  ]

outgoing_result-alone :
    (v : ChannelEvent) (user : String) (p : EventParams)
    → outgoing_result v (run_async [] v (new_outgoing_context v (some p) user)) ≡ ok (some v)
unfolding outgoing_result run_async new_outgoing_context event_of outgoing_final
outgoing_result-alone v user p = refl

outgoing_result-null :
    (v : ChannelEvent) (user : String)
    → outgoing_result v (run_async [] v (new_outgoing_context v none user))
      ≡ err (plain_error "Cannot read properties of null (reading 'query')")
unfolding outgoing_result run_async new_outgoing_context event_of outgoing_final
outgoing_result-null v user = refl

-- An event that no handler's path matches reaches the user as it is, unless its name has a line terminator before
-- a `?`: then `processOutgoingEvents` fails, and the event is lost.
pub process_outgoing_events-unhandled :
    (search_params : String → List (String × String)) (v : ChannelEvent) (user : String)
    (hs : List OutgoingHandler)
    → NoneMatches v.event hs
    → process_outgoing_events (route_path search_params "*") hs v user ≡ (
        if all is_dot (first_group (split 63 (codes v.event)))
        then ok (some v)
        else err (plain_error "Cannot read properties of null (reading 'query')"))
process_outgoing_events-unhandled search_params v user hs misses =
    let alone = process_outgoing-skips (route_path search_params "*") v user hs misses [] in
    elim (Bool-cases (all is_dot (first_group (split 63 (codes v.event))))) [
      | inl dots ↦
          let (p, e) = any_route-matches search_params v.event dots in
          rw (dots) (
            subst
              (λ stack.
                process_outgoing_events (route_path search_params "*") stack v user ≡ ok (some v))
              (append-nil hs) (alone (some p) e ∙ outgoing_result-alone v user p))
      | inr broken ↦ rw (broken) (
          subst
            (λ stack.
              process_outgoing_events (route_path search_params "*") stack v user
              ≡ err (plain_error "Cannot read properties of null (reading 'query')"))
            (append-nil hs)
            (alone none (any_route-misses search_params v.event broken)
              ∙ outgoing_result-null v user))
    ]
