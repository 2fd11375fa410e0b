-- ===== src/Orchestrator/Tools.antt =====
-- nexus/orchestrator/tools: what the roles call, each behind its permission check.
pub mod Llm
pub mod Ceo
pub mod Manager
pub mod Worker
pub mod Qa
