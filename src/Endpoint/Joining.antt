-- ===== src/Endpoint/Joining.antt =====
-- javascript/core/src/contexts/joinContext.ts, and `#buildError` of endpointEngine.ts.
use pondsocket.Prelude.{
  ℕ, suc, String, Bool, true, false, Option, none, some, [], ◌∷◌, ◌++◌, ◌==◌, nat_beq,
  if◌then◌else◌, concat,
}
use pondsocket.JsMap.{get, set, spread}
use pondsocket.Protocol.{
  PondObject, str, num, object, ChannelEvent, ServerActions, Error, http_error, plain_error,
  thrown_value,
}
use pondsocket.ChannelEngine.State
use pondsocket.ChannelEngine.State.{ChannelEngine}
use pondsocket.ChannelEngine.Users
use pondsocket.ChannelEngine.Presence
use pondsocket.ChannelEngine.Messages
use pondsocket.Wrappers.Calls.{channel_call}
use pondsocket.Endpoint.State.{
  JoinRequest, JoinAct, accept, decline, assign, reply, track_presence, send_to_recipients,
  on_channel, delegate, EndpointEngine, Subscription, Exit, done, raised, before, send_message,
  call,
}

-- The texts of `ErrorTypes`, and an error's payload.
abbrev pub error_payload : String → String → ℕ → PondObject
error_payload code message status =
    ("code", str code)
    ∷ ("message", str message)
    ∷ ("status", num status)
    ∷ ("statusCode", num status)
    ∷ ("error", object (("message", str message) ∷ ("status", num status) ∷ []))
    ∷ []

abbrev pub error_message : Error → String
error_message (http_error status message) = message
error_message (plain_error message) = message
error_message thrown_value = "An unknown error occurred"

abbrev pub error_status : Error → ℕ
error_status (http_error status message) = status
error_status (plain_error message) = 500
error_status thrown_value = 500

-- `#buildError`.
unfoldable pub build_error : Error → String → String → String → ChannelEvent
build_error e error_type channel request_id = record {
  action = ServerActions.error;
  event = error_type;
  payload = error_payload error_type (error_message e) (error_status e);
  channel_name = channel;
  request_id = request_id;
}

-- A `JoinContext`: its engine's place and name, the request, and its own fields.
pub record JoinContext : Type 0 where
  pub engine : ℕ
  pub request : JoinRequest
  pub new_assigns : PondObject
  pub executed : Bool
  pub accepted : Bool

unfoldable pub new_join_context : ℕ → JoinRequest → JoinContext
new_join_context engine r = record {
  engine = engine;
  request = r;
  new_assigns = r.assigns;
  executed = false;
  accepted = false;
}

abbrev pub Joining : Type 0
Joining = JoinContext × EndpointEngine

-- A call of the context's engine.
unfoldable pub call_engine : {A : Type 0} → State.M A → Joining → Exit Joining A
call_engine m (c, s) = elim (call c.engine m s) [
  | done a t es ↦ done a (c, t) es
  | raised x t es ↦ raised x (c, t) es
]

-- `assign`.
unfoldable pub join_assign : PondObject → Joining → Exit Joining (Unit {0})
unfolding call_engine
join_assign assigns (c, s) =
    if c.accepted
    then call_engine (Users.update_assigns c.request.client_id assigns) (c, s)
    else done tt (record c { new_assigns = spread c.new_assigns assigns }, s) []

-- `#performChecks`.
unfoldable pub perform_checks : Joining → Exit Joining (Unit {0})
perform_checks (c, s) =
    if c.executed
    then raised
        (http_error 403 (
          concat (
            "Request to join channel " ∷ c.request.channel_name
            ∷ " rejected: Request already executed" ∷ [])))
        (c, s) []
    else done tt (record c { executed = true }, s) []

-- The closure that `accept` keeps with the socket.
unfoldable pub add_subscription : JoinContext → EndpointEngine → EndpointEngine
add_subscription c s = elim (get c.request.client_id s.sockets) [
  | none ↦ s
  | some cache ↦
      let new : Subscription = record {
        token = s.next_token;
        engine = c.engine;
        channel_name = c.request.channel_name;
      } in
      record s {
        sockets =
            set c.request.client_id
              (record cache {
                subscriptions = cache.subscriptions ++ new ∷ [];
                channel_subscriptions = set c.request.channel_name new cache.channel_subscriptions;
              })
              s.sockets;
        next_token = suc s.next_token;
      }
]

-- What `accept` does once its assigns are merged.
unfoldable pub join_user : Joining → Exit Joining (Unit {0})
unfolding perform_checks call_engine add_subscription
join_user j = elim (perform_checks j) [
  | raised x k es ↦ raised x k es
  | done _ (c, s) es ↦
      elim (call_engine (Users.add_user c.request.client_id c.new_assigns c.request.request_id)
        (c, s)) [
          | raised x k fs ↦ raised x k fs
          | done _ (d, t) fs ↦ done tt (record d { accepted = true }, add_subscription d t) fs
        ]
]

-- `accept`.
unfoldable pub join_accept : Option PondObject → Joining → Exit Joining (Unit {0})
unfolding join_assign join_user
join_accept none j = join_user j
join_accept (some assigns) j = elim (join_assign assigns j) [
  | raised x k es ↦ raised x k es
  | done _ k es ↦ before es (join_user k)
]

-- `message || d` and `code || d`.
abbrev pub text_or : Option String → String → String
text_or none d = d
text_or (some t) d = if t == "" then d else t

abbrev pub code_or : Option ℕ → ℕ → ℕ
code_or none d = d
code_or (some n) d = if nat_beq n 0 then d else n

-- `decline`.
unfoldable pub join_decline : Option String → Option ℕ → Joining → Exit Joining (Unit {0})
unfolding perform_checks
join_decline message code j = elim (perform_checks j) [
  | raised x k es ↦ raised x k es
  | done _ (c, s) es ↦
      done tt (c, s)
        (send_message c.request.client_id
          (record {
            action = ServerActions.error;
            event = "UNAUTHORIZED_JOIN_REQUEST";
            payload =
                error_payload "UNAUTHORIZED_JOIN_REQUEST"
                  (text_or message "Unauthorized connection") (code_or code 401);
            channel_name = c.request.channel_name;
            request_id = c.request.request_id;
          })
          s)
]

-- One call of a method of the context.
unfoldable pub join_act : JoinAct → Joining → Exit Joining (Unit {0})
unfolding join_accept join_decline join_assign call_engine channel_call
join_act (accept assigns) j = join_accept assigns j
join_act (decline message code) j = join_decline message code j
join_act (assign assigns) j = join_assign assigns j
join_act (reply event payload) (c, s) =
    done tt (c, s)
      (send_message c.request.client_id
        (record {
          action = ServerActions.system;
          event = event;
          payload = payload;
          channel_name = c.request.channel_name;
          request_id = c.request.request_id;
        })
        s)
join_act (track_presence presence) (c, s) =
    call_engine (Presence.track_presence c.request.client_id presence) (c, s)
join_act (send_to_recipients recipient event payload) (c, s) =
    call_engine
      (Messages.send_message c.request.client_id recipient ServerActions.broadcast event payload
        c.request.request_id)
      (c, s)
join_act (on_channel k) j = call_engine (channel_call k) j
join_act (delegate e) j = done tt j []
