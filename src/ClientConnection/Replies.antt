-- ===== src/ClientConnection/Replies.antt =====
-- The server's answers as the client reads them: what endpointEngine.ts and channelEngine.ts send, through
-- `#init` of the client.
use pondsocket.Prelude.{
  ℕ, String, true, false, none, some, List, [], ◌∷◌, ◌++◌, ◌==◌, ◌≡◌, refl, arith, ap, ◌∙◌,
}
use pondsocket.JsMap.{get}
use pondsocket.Protocol.{str, num, Error, ChannelEvent}
use pondsocket.ChannelEngine.State.{ChannelEngine}
use pondsocket.ChannelEngine.Users.{acknowledgement}
use pondsocket.Endpoint.Joining.{build_error, error_message, error_status}
use pondsocket.ClientConnection.{
  Client, Effect, acknowledge_channel, decline_channel, publish_event,
}
use pondsocket.ClientConnection.Dispatch.{
  is_error, dispatch, broadcast_all, normalize_error, handle_error, handle_acknowledge,
}

dispatch_declines :
    (v : ChannelEvent) (n : ℕ) (c : Client)
    → (v.event == "ACKNOWLEDGE") ≡ false
    → is_error v.action ≡ true
    → get v.channel_name c.channels ≡ some n
    → dispatch v c ≡ (c, decline_channel n (normalize_error v) v.request_id ∷ [])
unfolding dispatch handle_error
dispatch_declines v n c h action known = ground arith

normalize_error-build_error :
    (e : Error) (error_type channel request_id : String)
    → normalize_error (build_error e error_type channel request_id) ≡ record {
      code = error_type;
      message = str (error_message e);
      status = num (error_status e);
      details = none;
    }
unfolding normalize_error build_error get
normalize_error-build_error e error_type channel request_id = refl

dispatch-build_error :
    (e : Error) (error_type channel request_id : String) (n : ℕ) (c : Client)
    → (error_type == "ACKNOWLEDGE") ≡ false
    → get channel c.channels ≡ some n
    → dispatch (build_error e error_type channel request_id) c ≡ (
      c,
      decline_channel n
            (record {
              code = error_type;
              message = str (error_message e);
              status = num (error_status e);
              details = none;
            })
            request_id
          ∷ [],
    )
unfolding build_error
dispatch-build_error e error_type channel request_id n c h known =
    dispatch_declines (build_error e error_type channel request_id) n c h refl known
    ∙ ap (λ p. (c, decline_channel n p request_id ∷ []))
        (normalize_error-build_error e error_type channel request_id)

-- An error that the server builds for a channel and a request, when it arrives alone at a client that has a channel
-- of that name, has two effects and leaves the client's state as it is. First, `decline` of that channel is called
-- for that request, with the error's type as the code and the server's message and status; it is for the channel
-- to decide what that does. Then the error is published, unchanged, as an event to all that observe the
-- client's events, its channels among them.
pub broadcast_all-build_error :
    (e : Error) (error_type channel request_id : String) (n : ℕ) (c : Client)
    → (error_type == "ACKNOWLEDGE") ≡ false
    → get channel c.channels ≡ some n
    → broadcast_all (build_error e error_type channel request_id ∷ []) c ≡ (
      c,
      decline_channel n
            (record {
              code = error_type;
              message = str (error_message e);
              status = num (error_status e);
              details = none;
            })
            request_id
          ∷ publish_event (build_error e error_type channel request_id)
          ∷ [],
    )
unfolding broadcast_all
broadcast_all-build_error e error_type channel request_id n c h known =
    ap
      (λ (p : Client × List Effect).
        (p.0, p.1 ++ publish_event (build_error e error_type channel request_id) ∷ []))
      (dispatch-build_error e error_type channel request_id n c h known)

-- The acknowledgement that a channel engine sends for a request acknowledges the client's channel of that name for
-- that request, and nothing else.
pub dispatch-acknowledgement :
    (engine : ChannelEngine) (request_id : String) (n : ℕ) (c : Client)
    → get engine.name c.channels ≡ some n
    → dispatch (acknowledgement engine request_id) c ≡ (c, acknowledge_channel n request_id ∷ [])
unfolding dispatch handle_acknowledge
dispatch-acknowledgement engine request_id n c known = ground arith
