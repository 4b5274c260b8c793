-- ===== src/Compression.antt =====
-- Context compression (src/thumbelina/agent/compression).
pub mod Messages
pub mod Units
pub mod Window
pub mod Kept
pub mod Pairing
pub mod Repaired
pub mod Untouched
mod Examples
