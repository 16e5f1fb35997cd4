-- ===== src/Agents.antt =====
-- Agents of src/acip/agents.
pub mod Validation
pub mod Correlation
mod Examples
