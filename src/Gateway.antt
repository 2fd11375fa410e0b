-- ===== src/Gateway.antt =====
-- gateway: the HTTP side of the program.
pub mod RateLimiter
pub mod SkillRegistry
pub mod AgentRouter
pub mod ApprovalWebhook
pub mod ContractRoutes
