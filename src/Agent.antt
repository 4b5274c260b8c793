-- ===== src/Agent.antt =====
-- The execution of tool calls by the main agent (src/thumbelina/agent/graph.py).
pub mod Gate
pub mod Node
pub mod Numbered
pub mod Executed
pub mod Passed
pub mod Closed
pub mod Answered
pub mod Messages
mod Examples
