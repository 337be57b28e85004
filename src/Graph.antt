-- ===== src/Graph.antt =====
-- internal/teams/graph: files on Microsoft Graph.
pub mod Item
pub mod Chunks
pub mod Requests
