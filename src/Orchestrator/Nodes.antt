-- ===== src/Orchestrator/Nodes.antt =====
-- nexus/orchestrator/nodes: a node reads the state, acts, and returns the state with its updates
-- merged in, as LangGraph does: `mail_log` and `mail_rejections` are appended to, all else is set.
pub mod Ceo
pub mod Manager
pub mod Accept
pub mod Reassign
pub mod Worker
pub mod Qa
pub mod Progress
