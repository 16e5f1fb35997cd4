-- ===== src/Llm.antt =====
-- Calls of language models: src/acip/core/llm.
pub mod Contracts
pub mod Policy
pub mod Router
pub mod Replay
mod Examples
