-- ===== src/Model.antt =====
-- internal/teams/model: the data that the Teams API returns, and its normalisation.
pub mod Sequence
pub mod Horizon
pub mod Message
pub mod Conversation
pub mod Markup
pub mod Body
pub mod Attachments
pub mod Extract
