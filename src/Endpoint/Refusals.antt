-- ===== src/Endpoint/Refusals.antt =====
-- What an endpoint refuses: messages that are no client messages, and messages to channels that the client
-- is not in or that nobody handles.
use pondsocket.Prelude.{
  ℕ, suc, String, Bool, true, false, not, ◌&&◌, Option, none, some, List, [], ◌∷◌, ◌++◌, ◌≡◌, refl,
  arith, ap, ◌∙◌, ltb, if◌then◌else◌, length, concat,
}
use pondsocket.Protocol.{
  Json, Error, Result, ok, err, http_error, plain_error, str, num, ServerActions, user_ids,
  channel_sender,
}
use pondsocket.Schema.{ClientMessage, broadcast, Checked, valid, invalid, parse_client_message}
use pondsocket.ChannelEngine.Messages
use pondsocket.Endpoint.State.{
  Effect, EndpointEngine, EventHandler, EventRequest, Exit, done, raised, engine_at, send_message,
  call,
}
use pondsocket.Endpoint.Lobby.{retrieve_channel}
use pondsocket.Endpoint.Joining.{build_error}
use pondsocket.Endpoint.Broadcasting.{
  event_request, is_member, name_of, handlers_of, broadcast_message, event_next, event_final,
  finish, to_exit,
}
use pondsocket.Endpoint.Sockets.{
  Frame, checked_message, read_frame, handle_message, broadcast_to, read_message,
}

-- A text of a client message within the size limit.
abbrev pub is_client_message : Result Json → Bool
is_client_message (err x) = false
is_client_message (ok j) = elim (parse_client_message j) [ valid m ↦ true | invalid _ _ ↦ false ]

abbrev pub is_acceptable : Frame → EndpointEngine → Bool
is_acceptable f s = not (ltb s.max_message_size f.size) && is_client_message f.parsed

read_frame-refuses :
    (uuids : ℕ → ℕ → String) (limit_text refusal client : String) (f : Frame) (s : EndpointEngine)
    → is_acceptable f s ≡ false
    → (e : Error) × (read_frame uuids limit_text refusal client f s ≡ raised e s [])
unfolding read_frame
read_frame-refuses uuids limit_text refusal client f s h =
    by_size (ltb s.max_message_size f.size) f.parsed h
  where
    by_check :
        (c : Checked ClientMessage)
        → (elim c [ valid m ↦ true | invalid _ _ ↦ false ]) ≡ false
        → (e : Error) × ((elim (elim c as (λ _. Result ClientMessage) [
          | valid m ↦ ok m
          | invalid _ _ ↦ err (plain_error refusal)
        ])
              as (λ _. Exit EndpointEngine (Unit {0})) [
                | err x ↦ raised x s []
                | ok m ↦ handle_message uuids client m s
              ])
            ≡ raised e s [])
    by_check (valid m) h = cc
    by_check (invalid x y) h = (plain_error refusal, refl)

    by_parse :
        (p : Result Json)
        → is_client_message p ≡ false
        → (e : Error) × ((elim p as (λ _. Exit EndpointEngine (Unit {0})) [
          | err x ↦ raised x s []
          | ok j ↦ elim (checked_message refusal j) [
            | err x ↦ raised x s []
            | ok m ↦ handle_message uuids client m s
          ]
        ])
            ≡ raised e s [])
    by_parse (err x) h = (x, refl)
    by_parse (ok j) h = by_check (parse_client_message j) h

    too_long : Error
    too_long = http_error 413 (
        concat (
          "Message size " ∷ f.size_text ∷ " exceeds maximum allowed size of " ∷ limit_text
          ∷ " bytes" ∷ []))

    by_size :
        (long : Bool) (p : Result Json)
        → (not long && is_client_message p) ≡ false
        → (e : Error) × ((if long
              then raised too_long s []
              else elim p as (λ _. Exit EndpointEngine (Unit {0})) [
                | err x ↦ raised x s []
                | ok j ↦ elim (checked_message refusal j) [
                  | err x ↦ raised x s []
                  | ok m ↦ handle_message uuids client m s
                ]
              ])
            ≡ raised e s [])
    by_size true p h = (too_long, refl)
    by_size false p h = by_parse p h

read_message-raised :
    (uuids : ℕ → ℕ → String) (limit_text refusal fresh_id client : String) (f : Frame)
    (s : EndpointEngine) (e : Error)
    → read_frame uuids limit_text refusal client f s ≡ raised e s []
    → read_message uuids limit_text refusal fresh_id client f s
      ≡ (s, send_message client (build_error e "INVALID_MESSAGE" "ENDPOINT" fresh_id) s)
unfolding read_message
read_message-raised uuids limit_text refusal fresh_id client f s e h = ap answered h
  where
    answered : Exit EndpointEngine (Unit {0}) → EndpointEngine × List Effect
    answered (done _ t es) = (t, es)
    answered (raised x t es) =
        (t, es ++ send_message client (build_error x "INVALID_MESSAGE" "ENDPOINT" fresh_id) t)

-- A message on a socket that is too long, is no JSON or is not a client message leaves the endpoint as it was,
-- and is answered, if the socket is open, by exactly one error event.
pub read_message-refuses :
    (uuids : ℕ → ℕ → String) (limit_text refusal fresh_id client : String) (f : Frame)
    (s : EndpointEngine)
    → is_acceptable f s ≡ false
    → (e : Error) × (read_message uuids limit_text refusal fresh_id client f s
        ≡ (s, send_message client (build_error e "INVALID_MESSAGE" "ENDPOINT" fresh_id) s))
read_message-refuses uuids limit_text refusal fresh_id client f s h =
    let (e, refused) = read_frame-refuses uuids limit_text refusal client f s h in
    (e, read_message-raised uuids limit_text refusal fresh_id client f s e refused)

-- A broadcast to a channel that the client is not in leaves the endpoint as it was, and is answered, if the
-- socket is open, by one error event with status 404.
pub read_message-non_member :
    (uuids : ℕ → ℕ → String) (limit_text refusal fresh_id client : String) (f : Frame) (j : Json)
    (m : ClientMessage) (id : ℕ) (s : EndpointEngine)
    → ltb s.max_message_size f.size ≡ false
    → f.parsed ≡ ok j
    → parse_client_message j ≡ valid m
    → m.action ≡ broadcast
    → retrieve_channel m.channel_name s ≡ ok id
    → is_member id client s ≡ false
    → read_message uuids limit_text refusal fresh_id client f s ≡ (
      s,
      send_message client
          (build_error
            (http_error 404 (
              concat (
                "ChannelEngine: User with id "
                ∷ client
                ∷ " does not exist in channel "
                ∷ name_of (engine_at id s)
                ∷ [])))
            "INVALID_MESSAGE"
            "ENDPOINT"
            fresh_id)
          s,
    )
unfolding read_frame handle_message broadcast_to broadcast_message
read_message-non_member uuids limit_text refusal fresh_id client f j m id s short parsed fits action
      found out =
    read_message-raised uuids limit_text refusal fresh_id client f s _ reached
  where
    reached :
        read_frame uuids limit_text refusal client f s
        ≡ raised
            (http_error 404 (
              concat (
                "ChannelEngine: User with id "
                ∷ client
                ∷ " does not exist in channel "
                ∷ name_of (engine_at id s)
                ∷ [])))
            s
            []
    reached = ground arith

-- None of the handlers' paths fits the event's name.
abbrev pub NoneHandles : String → List EventHandler → Type 0
NoneHandles name [] = Unit {0}
NoneHandles name (h ∷ hs) = (h.path.parse name ≡ ok none) × NoneHandles name hs

event_next-misses :
    (id : ℕ) (r : EventRequest) (hs : List EventHandler) (s : EndpointEngine)
    → NoneHandles r.event hs
    → event_next (suc (length hs)) id r none hs s ≡ finish id r none [] s
unfolding event_next
event_next-misses id r [] s h = refl
event_next-misses id r (k ∷ hs) s (h, rest) = rw (h) (event_next-misses id r hs s rest)

to_exit-finish :
    (id : ℕ) (r : EventRequest) (e : Option Error) (s : EndpointEngine)
    → to_exit (finish id r e [] s) ≡ event_final id r e s
unfolding finish
to_exit-finish id r e s = same (event_final id r e s)
  where
    same :
        (o : Exit EndpointEngine (Unit {0}))
        → to_exit (elim o [
          | done _ t es ↦ record { left = []; endpoint = t; told = es; thrown = none }
          | raised x t es ↦ record { left = []; endpoint = t; told = es; thrown = some x }
        ])
          ≡ o
    same (done a t es) = refl
    same (raised x t es) = refl

-- A member's message to a channel none of whose lobby's handlers fits the event becomes one message of the
-- channel to the sender alone, an error event that says so; nothing else happens.
pub broadcast_message-unhandled :
    (id : ℕ) (user : String) (m : ClientMessage) (s : EndpointEngine)
    → is_member id user s ≡ true
    → NoneHandles m.event (handlers_of id s)
    → broadcast_message id user m s
      ≡ call id
          (Messages.send_message channel_sender
            (user_ids (user ∷ []))
            ServerActions.error
            "HANDLER_NOT_FOUND"
            (("message", str "A handler did not respond to the event") ∷ ("code", num 500) ∷ [])
            m.request_id)
          s
unfolding broadcast_message event_final
broadcast_message-unhandled id user m s inside h = rw (inside) (
    ap to_exit (event_next-misses id (event_request user m) (handlers_of id s) s h)
    ∙ to_exit-finish id (event_request user m) none s)
