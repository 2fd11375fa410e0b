-- ===== src/NexusV1.antt =====
-- nexus_v1: the admin agent, which makes a work order of a request, and the choice of a model.
pub mod Config
pub mod ModelRouter
pub mod Admin
pub mod Samples
mod Tests
