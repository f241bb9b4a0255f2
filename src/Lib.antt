-- ===== src/Lib.antt =====
-- PondSocket: the core of the TypeScript implementation, in `javascript/`.
--
-- A server keeps channels: users join a channel, have assigns and a presence in it, and send messages to
-- one another; nodes share a channel through a backend. A client joins channels over a connection that
-- comes and goes. The parts and the files that model them:
--
-- - Protocol, Protocol/Values: the shared types of `comnon/src/enums.ts`, `comnon/src/misc/types.ts`,
--   `core/src/types.ts`, `core/src/abstracts/types.ts` and `core/src/errors/httpError.ts`. A JSON value
--   is a tree; a number in it is a natural number. An object, and a JavaScript `Map`, is a list of
--   entries in the order of insertion (JsMap).
-- - Subject: `comnon/src/subjects`. What an observer does is a function of the caller that returns or
--   throws.
-- - Presence: `core/src/engines/presenceEngine.ts`; each method is a function into a result.
-- - ChannelEngine: `core/src/engines/channelEngine.ts`. State has the engine's fields as a record, and
--   the monad of its methods: a method returns or throws, and has then reached a state and told the
--   outside its effects, in order. Messages, Presence, Users, Nodes and Remote have the methods, named as in
--   the source; Subscriptions, Told, Departure and Invariant have
--   lemmas, the other child modules the theorems. Told counts the events that are given to a user's subscribers;
--   Outgoing/Reception says what the user gets of them. The presence engine of a
--   channel is the one of Presence, its publisher that of Subject.
-- - Middleware: `core/src/abstracts/middleware.ts`. A handler is known by its calls of `next` and by how
--   it ends. `next` runs on fuel for how deep handlers call one another; `run` gives one unit for
--   each handler and one more, since each call of a handler takes one off the stack.
-- - Endpoint: `core/src/engines/endpointEngine.ts` and `lobbyEngine.ts`, with the contexts `joinContext.ts`,
--   `eventContext.ts` and `connectionContext.ts` of `core/src/contexts`, and `broadcastMessage` of the
--   channel engine. State has an endpoint with its lobbies, their channel engines and its sockets; a call of
--   an engine's method (State.call) puts the engine's new state back and sends what it tells its users.
--   Lobby, Joining, JoinMiddleware, Broadcasting, Sockets and Connecting have the operations, the other
--   child modules the theorems. A handler of the application is a function of what it is given into
--   the calls that it makes (Script): methods of its context and of the channel that `context.channel` gives, up to
--   the first that throws. It runs to its end before anything else happens. Objects that
--   are shared by reference are places in lists; a socket is known by the client's id, which is never drawn
--   twice. A path is known by its key and by what `parseAddress` makes of a name; the text of
--   a `ValidationError` and what `JSON.parse` makes of a text are arguments. `next` runs on fuel: one unit for
--   each lobby, or each handler, and one more.
-- - Route: `comnon/src/misc/route.ts` and `core/src/matcher/matcher.ts`. Texts has the methods of strings on
--   lists of code points, Percent the percent coding of the language, Pattern the expressions that a route is
--   compiled to, with a matcher that backtracks as the language's does. What `URLSearchParams` makes of a
--   query is an argument. `route_path` makes of a route what Endpoint knows of a path; Coding, Splitting, Slots,
--   Matching, Groups, Segments and Alignment have lemmas, the other child modules the theorems.
-- - Outgoing: `core/src/contexts/outgoingContext.ts`, with `handleOutgoingEvent` and `processOutgoingEvents` of
--   `lobbyEngine.ts` and `runAsync` of the middleware. A handler is a function of its context into the calls that
--   it makes of it. The effect `process_outgoing` of ChannelEngine starts what `outgoing_processed` ends; Reception
--   puts both together.
-- - Wrappers: `core/src/wrappers/channel.ts` (Methods and Calls) and `pondChannel.ts`; the methods that only pass on a
--   value are left out.
-- - Server: `core/src/server/server.ts`, its heartbeat, its shutdown and the cookies of a request. What the HTTP server,
--   the WebSocket server and the backend report, and the timers, are occurrences that come in any order.
-- - Schema: `comnon/src/schema.ts`, the parsers of the messages on the wire; Schema/Client and
--   Schema/Events relate them to the messages that are sent.
-- - ClientChannel: `client/src/core/channel.ts`. Machine has all calls that reach a channel as steps.
-- - Distributor: `core/src/abstracts/distributor.ts`, the backend over Redis. A message is an object with its
--   entries; the Redis clients are arguments and effects.
-- - ClientConnection: `client/src/core/baseClient.ts` and `webSocketClient.ts`. A client's sockets and
--   channels are numbered; what it does to them is an effect. Dispatch has what it does with the server's
--   events, Sockets the sockets' callbacks and the timers, Runs all of them as steps; Replies relates Dispatch to what
--   the server of Endpoint sends.
--
-- `uuid()` is a stream in the channel engine, and an argument elsewhere. Code of the application (the
-- callbacks, the middleware and the observers) is seen as what it is told: a callback that calls back into
-- the engine before it returns is not modelled. Timers are steps that may come at any time. The methods of
-- the backend are effects, and what it delivers is an argument.
--
-- Not modelled: a handler that catches the error of a call and goes on, or that calls channels other than its
-- context's; the way of an upgrade request through the server's middleware to a connection context, and the
-- client over server-sent events. A JavaScript string with a lone surrogate is no text here. The ports to other
-- languages and the integrations with frameworks are not part of this development.
pub mod Prelude
pub mod JsMap
pub mod Protocol
pub mod Server
pub mod Subject
pub mod Wrappers
pub mod Outgoing
pub mod Presence
pub mod ChannelEngine
pub mod Middleware
pub mod Route
pub mod Schema
pub mod ClientChannel
pub mod ClientConnection
pub mod Endpoint
pub mod Distributor
