-- ===== src/Orchestrator.antt =====
-- nexus/orchestrator: contracts run through a graph of role nodes.
pub mod Permissions
pub mod State
pub mod Approval
pub mod System
pub mod Mail
pub mod Tools
pub mod Nodes
pub mod Graph
pub mod Samples
mod Tests
