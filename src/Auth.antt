-- ===== src/Auth.antt =====
-- internal/teams/auth: how tokens are found in what the browser stored.
pub mod State
pub mod Msal
pub mod TeamsCache
pub mod Padding
pub mod Extraction
pub mod DeviceCode
pub mod Tokens
pub mod Cookies
mod Examples
