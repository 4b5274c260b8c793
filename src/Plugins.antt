-- ===== src/Plugins.antt =====
-- Plugins: metadata and load order (src/thumbelina/plugins).
pub mod Metadata
pub mod Resolver
pub mod Edges
pub mod Kahn
pub mod Requirements
pub mod LoadOrder
pub mod Resolved
mod Examples
