-- ===== src/Agents.antt =====
-- The agents of the folder agents, but for their own workspaces.
pub mod Execution
