-- ===== src/Bridge.antt =====
-- internal/bridge and internal/teams/attachments: how a file goes from Matrix to Teams.
pub mod Files
pub mod Descriptor
pub mod Attachments
mod Examples
