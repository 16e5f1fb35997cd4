-- ===== src/Evidence.antt =====
-- The evidence store, src/acip/core/evidence.
pub mod Contracts
pub mod Rows
pub mod Store
pub mod Findings
pub mod Grounding
pub mod Dedupe
pub mod Writes
pub mod History
pub mod Paging
mod Examples
