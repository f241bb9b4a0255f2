-- ===== src/Outgoing/Laws.antt =====
-- Which handler decides on an outgoing event, and what then reaches the user.
use pondsocket.Prelude.{
  String, Bool, true, false, ◌||◌, Option, none, some, List, [], ◌∷◌, ◌++◌, ◌≡◌, refl, ap, ◌∙◌,
  arith, if◌then◌else◌,
}
use pondsocket.Protocol.{PondObject, ChannelEvent, Error, ok, err}
use pondsocket.Endpoint.State.{EventParams, PondPath}
use pondsocket.Outgoing.{
  OutgoingContext, OutgoingHandler, OutgoingAct, block_event, transform_payload, broadcast_event,
  run_async, outgoing_acts, outgoing_act, block, transform, call_outgoing, after_outgoing,
  outgoing_final, update_params, process_outgoing_events, outgoing_result, new_outgoing_context,
  event_of,
}

-- None of the handlers' paths matches.
abbrev pub NoneMatches : String → List OutgoingHandler → Type 0
NoneMatches event [] = Unit {0}
NoneMatches event (h ∷ hs) = (h.path.parse event ≡ ok none) × NoneMatches event hs

-- Whether the calls of a handler block the event.
abbrev pub blocks : List OutgoingAct → Bool
blocks [] = false
blocks (block_event ∷ acts) = true
blocks (transform_payload payload ∷ acts) = blocks acts
blocks (broadcast_event event payload ∷ acts) = blocks acts

-- The payload after the calls: that of the last `transform`.
abbrev pub transformed : List OutgoingAct → PondObject → PondObject
transformed [] payload = payload
transformed (transform_payload other ∷ acts) payload = transformed acts other
transformed (block_event ∷ acts) payload = transformed acts payload
transformed (broadcast_event event other ∷ acts) payload = transformed acts payload

abbrev pub has_failed : Option Error → Bool
has_failed none = false
has_failed (some x) = true

run_async-skips :
    (hs more : List OutgoingHandler) (v : ChannelEvent) (c : OutgoingContext)
    → NoneMatches v.event hs
    → run_async (hs ++ more) v c ≡ run_async more v c
unfolding run_async
run_async-skips [] more v c h = refl
run_async-skips (h ∷ hs) more v c (e, es) = rw (e) (run_async-skips hs more v c es)

outgoing_acts-state :
    (acts : List OutgoingAct) (c : OutgoingContext)
    → outgoing_acts acts c
      ≡ record c { payload = transformed acts c.payload; is_blocked = c.is_blocked || blocks acts }
unfolding outgoing_acts outgoing_act block transform
outgoing_acts-state [] c = ground arith
outgoing_acts-state (block_event ∷ acts) c =
    rw (outgoing_acts-state acts (block c))
      (ap (λ b. record c { payload = transformed acts c.payload; is_blocked = b }) (ground arith))
outgoing_acts-state (transform_payload payload ∷ acts) c =
    outgoing_acts-state acts (transform payload c)
outgoing_acts-state (broadcast_event event payload ∷ acts) c = outgoing_acts-state acts c

-- The context that a handler is called with, where its path gives parameters.
abbrev pub context_for : ChannelEvent → String → EventParams → OutgoingContext
context_for v user params = update_params params (new_outgoing_context v none user)

outgoing_result-after :
    (v : ChannelEvent) (user : String) (params : EventParams) (payload : PondObject) (b : Bool)
    (ending : Option Error)
    → outgoing_result v (
        after_outgoing ending
          (record (context_for v user params) { payload = payload; is_blocked = b }))
      ≡ ok (if b || has_failed ending then none else some (record v { payload = payload }))
unfolding outgoing_result after_outgoing outgoing_final block event_of update_params
    new_outgoing_context
outgoing_result-after v user params payload true none = refl
outgoing_result-after v user params payload false none = refl
outgoing_result-after v user params payload true (some x) = refl
outgoing_result-after v user params payload false (some x) = refl

call_outgoing-context :
    (h : OutgoingHandler) (v : ChannelEvent) (user : String) (first : Option EventParams)
    (params : EventParams)
    → let script = h.handler (context_for v user params) in
      outgoing_result v (call_outgoing h params (new_outgoing_context v first user))
      ≡ ok (
          if blocks script.acts || has_failed script.ending
          then none
          else some (record v { payload = transformed script.acts v.payload }))
unfolding call_outgoing update_params new_outgoing_context
call_outgoing-context h v user first params =
    let script = h.handler (context_for v user params) in
    rw (outgoing_acts-state script.acts (context_for v user params)) (
      outgoing_result-after v user params (transformed script.acts v.payload) (blocks script.acts)
        script.ending)

module _ (any_path : PondPath) (v : ChannelEvent) (user : String) (hs : List OutgoingHandler)
    (misses : NoneMatches v.event hs) where
  pub process_outgoing-skips :
      (more : List OutgoingHandler) (first : Option EventParams)
      → any_path.parse v.event ≡ ok first
      → process_outgoing_events any_path (hs ++ more) v user
        ≡ outgoing_result v (run_async more v (new_outgoing_context v first user))
  unfolding process_outgoing_events
  process_outgoing-skips more first fits = rw (fits) (
      ap (outgoing_result v) (run_async-skips hs more v (new_outgoing_context v first user) misses))

  -- The first handler whose path matches the event's name decides alone: the event is kept from the user if that
  -- handler blocks it or fails, and else it reaches the user with the payload of the handler's last `transform`. No
  -- handler before or behind it has any effect.
  pub process_outgoing_events-decides :
      (rest : List OutgoingHandler) (h : OutgoingHandler) (first : Option EventParams)
      (params : EventParams)
      → any_path.parse v.event ≡ ok first
      → h.path.parse v.event ≡ ok (some params)
      → let script = h.handler (context_for v user params) in
        process_outgoing_events any_path (hs ++ h ∷ rest) v user
        ≡ ok (
            if blocks script.acts || has_failed script.ending
            then none
            else some (record v { payload = transformed script.acts v.payload }))
  unfolding run_async new_outgoing_context
  process_outgoing_events-decides rest h first params fits matches =
      process_outgoing-skips (h ∷ rest) first fits
      ∙ ap (outgoing_result v) (ground (arith, matches))
      ∙ call_outgoing-context h v user first params

  run_async-fails :
      (rest : List OutgoingHandler) (h : OutgoingHandler) (first : Option EventParams) (x : Error)
      → h.path.parse v.event ≡ err x
      → run_async (h ∷ rest) v (new_outgoing_context v first user)
        ≡ block (new_outgoing_context v first user)
  unfolding run_async outgoing_final
  run_async-fails rest h first x fails = rw (fails) refl

  -- A path that fails on the event's name, for a parameter that cannot be decoded, blocks the event as well.
  pub process_outgoing_events-fails :
      (rest : List OutgoingHandler) (h : OutgoingHandler) (first : Option EventParams) (x : Error)
      → any_path.parse v.event ≡ ok first
      → h.path.parse v.event ≡ err x
      → process_outgoing_events any_path (hs ++ h ∷ rest) v user ≡ ok none
  unfolding run_async new_outgoing_context outgoing_final block outgoing_result
  process_outgoing_events-fails rest h first x fits fails =
      process_outgoing-skips (h ∷ rest) first fits
      ∙ ap (outgoing_result v) (run_async-fails rest h first x fails)
