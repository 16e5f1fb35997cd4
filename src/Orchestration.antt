-- ===== src/Orchestration.antt =====
-- Planning and running an investigation: src/acip/core/orchestration and src/acip/agents/registry.py.
pub mod Registry
pub mod Planner
pub mod Runs
pub mod Execute
pub mod Runner
mod Examples
