-- ===== src/Client.antt =====
-- internal/teams/client: the consumer Teams HTTP client.
pub mod Errors
pub mod Responses
pub mod Executor
pub mod MessageIds
pub mod Access
pub mod Content
pub mod Listing
pub mod Sending
