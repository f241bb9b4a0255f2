-- ===== src/Endpoint.antt =====
-- javascript/core/src/engines/endpointEngine.ts and lobbyEngine.ts with the contexts that an endpoint's
-- handlers are given, by parts: the endpoint's state, its lobbies, joins, broadcasts and sockets.
pub mod State
pub mod Lobby
pub mod Joining
pub mod JoinMiddleware
pub mod Broadcasting
pub mod Sockets
pub mod Connecting
pub mod Calls
pub mod Unsubscribing
pub mod Closing
pub mod Accepting
pub mod Routing
pub mod Recording
pub mod Admission
pub mod Leaving
pub mod Refusals
pub mod Soundness
mod Tests
