-- ===== src/Wasi.antt =====
-- The host side of WASI modules (apps/web/src/wasi-module.js).
pub mod Descriptors
pub mod Rights
pub mod Ranges
pub mod Memory
pub mod Reads
pub mod Writes
pub mod Tables
pub mod Sizes
pub mod Calls
pub mod Within
pub mod Contents
pub mod Chunks
pub mod Splice
pub mod Readiness
pub mod Imports
pub mod Paths
pub mod Steps
pub mod Fresh
pub mod Runs
pub mod Frozen
pub mod Ends
pub mod Capability
pub mod Numbers
mod Tests
pub mod Counted
