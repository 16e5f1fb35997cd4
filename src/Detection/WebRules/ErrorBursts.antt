-- ===== src/Detection/WebRules/ErrorBursts.antt =====
-- The error bursts of src/acip/core/detection/web_rules.py among the dated errors of one address.
use agentic_cyber_investigat.Prelude.{ℕ, ◌+◌, ◌≤◌, ◌<◌, List, length, All}
use agentic_cyber_investigat.Detection.Window.{time_at}
use agentic_cyber_investigat.Detection.WebRules.{WebEventView, moment}

module _ (min_errors window : ℕ) where
  -- A burst: at least so many of the errors, none more than the window after the first of them.
  pub record IsErrorBurst (burst : List WebEventView) : Type 0 where
    pub enough : min_errors ≤ length burst
    pub nonempty : 1 ≤ length burst
    pub head_time : ℕ
    pub within : All (λ e. (head_time ≤ moment e) × (moment e ≤ head_time + window)) burst

  -- No run of enough errors lies within a window.
  abbrev pub IsQuiet : List WebEventView → Type 0
  IsQuiet ordered =
      (i k : ℕ)
      → i + k < length ordered
      → time_at moment ordered (i + k) ≤ time_at moment ordered i + window
      → k + 1 < min_errors
