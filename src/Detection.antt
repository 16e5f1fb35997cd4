-- ===== src/Detection.antt =====
-- The detection rules of src/acip/core/detection.
pub mod Window
pub mod AuthEvents
pub mod AuthRules
pub mod WebRules
mod Examples
