-- ===== src/Permissions.antt =====
-- Permission decisions on tool calls (src/thumbelina/tools/permissions.py).
pub mod Modes
pub mod Shell
pub mod Paths
pub mod Gate
pub mod Ladder
pub mod Floor
pub mod Guarded
pub mod Spelled
mod Examples
