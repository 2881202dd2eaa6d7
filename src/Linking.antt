-- ===== src/Linking.antt =====
-- The linking of an application's installation to an account: api/internal/linking.
pub mod Codes
pub mod Credentials
pub mod Scopes
pub mod Rate
pub mod Device
pub mod Browser
mod Examples
