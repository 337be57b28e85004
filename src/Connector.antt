-- ===== src/Connector.antt =====
-- pkg/connector: the connector between the bridge framework and Teams.
pub mod Backoff
pub mod Login
pub mod SyncLoop
pub mod Tracker
pub mod Ids
pub mod Reactions
pub mod Events
pub mod ReactionSync
pub mod ReadHorizons
pub mod Poll
pub mod Schedule
pub mod Discovery
pub mod Convert
pub mod Gif
pub mod Outbound
