-- ===== src/Collaboration.antt =====
-- The collaboration of agents: the registry in Collaboration/Registry.antt, the engine in
-- Collaboration/Engine.antt, and what they show in the other files.
pub mod Registry
pub mod Engine
mod Matching
mod Covers
mod Quality
mod Workflow
mod Tests
