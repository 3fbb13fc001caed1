-- ===== src/Webc.antt =====
-- The reader of WebC packages (apps/web/src/webc-metadata.js).
pub mod Reader
pub mod Volumes
pub mod Sections
pub mod Spans
pub mod Ends
pub mod Cbor
pub mod Objects
pub mod Manifest
pub mod References
mod Tests
