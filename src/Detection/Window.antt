-- ===== src/Detection/Window.antt =====
-- The sliding window of src/acip/core/detection/auth_rules.py: `start` and `end` are indices of a list in
-- the order of time, and the best span is kept by its first index and its length.
pub mod Longest
use agentic_cyber_investigat.Prelude.{
  ℕ, zero, suc, ◌+◌, ◌-◌, Bool, true, false, ◌&&◌, List, [], ◌∷◌, length, take, drop, if◌then◌else◌,
  ltb, leb,
}

-- The time of the item at an index, 0 beyond the end.
abbrev pub time_at : {A : Type 0} → (A → ℕ) → List A → ℕ → ℕ
time_at time [] i = 0
time_at time (x ∷ xs) zero = time x
time_at time (x ∷ xs) (suc i) = time_at time xs i

module _ (window : ℕ) (at : ℕ → ℕ) where
  -- The inner loop: `fuel` is more than the steps from `start` to `end`.
  unfoldable pub slide : ℕ → ℕ → ℕ → ℕ
  slide zero end start = start
  slide (suc fuel) end start =
      let next = slide fuel end (start + 1) in
      if ltb (at start + window) (at end) then next else start

  -- The outer loop over the `rest` ends from `end` on; the best span is `n` items from `s` on.
  unfoldable pub sweep : ℕ → ℕ → ℕ → ℕ → ℕ × ℕ → ℕ × ℕ
  unfolding slide
  sweep min zero end start best = best
  sweep min (suc rest) end start best =
      let start' = slide (end + 1) end start in
      let n = end + 1 - start' in
      sweep min rest (end + 1) start' (if leb min n && ltb best.1 n then (start', n) else best)

-- The longest span of at least `min` items that lies in a window, empty if there is none.
unfoldable pub best_span : {A : Type 0} → (A → ℕ) → ℕ → ℕ → List A → List A
best_span time window min ordered =
    let (s, n) = sweep window (time_at time ordered) min (length ordered) 0 0 (0, 0) in
    take n (drop s ordered)
