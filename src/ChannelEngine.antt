-- ===== src/ChannelEngine.antt =====
-- javascript/core/src/engines/channelEngine.ts, by parts: the engine's state and primitive effects,
-- messages, users, presence, and what it does with messages of other nodes.
pub mod State
pub mod Messages
pub mod Presence
pub mod Users
pub mod Nodes
pub mod Remote
pub mod Told
pub mod Delivery
pub mod Subscriptions
pub mod Invariant
pub mod Preservation
pub mod Membership
pub mod Refinement
pub mod Sync
pub mod Departure
pub mod Replication
pub mod Forgetting
pub mod Staleness
mod Tests
