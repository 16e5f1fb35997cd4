-- ===== src/Tools.antt =====
-- The audited calls of tools: src/acip/tools/runner.py.
pub mod Runner
mod Examples
