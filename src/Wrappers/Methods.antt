-- ===== src/Wrappers/Methods.antt =====
-- The methods of `Channel` of javascript/core/src/wrappers/channel.ts that change something, with their arguments.
use pondsocket.Prelude.{String, Option, List}
use pondsocket.JsMap.{JsMap}
use pondsocket.Protocol.{PondObject}

-- `userIds: string | string[]`.
pub data UserIds : Type 0 where
  one : String → UserIds
  many : List String → UserIds

-- The three broadcasts, with the event's route, its payload and, if given, the route's parameters.
pub data Broadcast : Type 0 where
  broadcast : String → PondObject → Option (JsMap String) → Broadcast
  broadcast_from : String → String → PondObject → Option (JsMap String) → Broadcast
  broadcast_to : UserIds → String → PondObject → Option (JsMap String) → Broadcast

-- The methods of `Channel` that change something.
pub data ChannelCall : Type 0 where
  broadcast_call : Broadcast → ChannelCall
  evict_call : String → Option String → ChannelCall
  track_presence update_presence upsert_presence : String → PondObject → ChannelCall
  remove_presence : String → ChannelCall
  update_assigns : String → PondObject → ChannelCall
  request_user_removal : String → ChannelCall
