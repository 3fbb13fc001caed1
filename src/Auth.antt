-- ===== src/Auth.antt =====
-- The secret store and the device-flow auth broker (apps/web/src/secrets.js).
pub mod Values
pub mod Broker
pub mod Create
pub mod Logins
pub mod Commands
pub mod Tokens
pub mod Completion
pub mod Resolve
mod Tests
