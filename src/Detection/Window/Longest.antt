-- ===== src/Detection/Window/Longest.antt =====
-- The sliding window of src/acip/core/detection/auth_rules.py finds the longest burst.
use agentic_cyber_investigat.Prelude.{
  ℕ, zero, suc, ◌+◌, ◌-◌, ◌≤◌, ◌<◌, ◌≡◌, refl, sym, subst, ap, ◌∙◌, Bool, true, false, ◌&&◌, List,
  [], ◌∷◌, length, take, drop, All, length-take, length-drop, if◌then◌else◌, ltb, leb, Bool-cases,
  inl, inr, ◌⊎◌, arith,
}
use agentic_cyber_investigat.Prelude.Sort.{IsSorted}
use agentic_cyber_investigat.Detection.Window.{time_at, slide, sweep, best_span}

le_split : (m n : ℕ) → m ≤ n → (m ≡ n) ⊎ (m + 1 ≤ n)
le_split m n h = elim (Bool-cases (ltb m n)) [
  | inl e ↦ inr (ground arith)
  | inr e ↦ inl (ground arith)
]

ltb_below : (m n : ℕ) → ltb m n ≡ true → m < n
ltb_below m n h = ground arith

module _ (window : ℕ) (at : ℕ → ℕ) where
  -- Where the inner loop stops.
  record IsSlid (end start s : ℕ) : Type 0 where
    pub after : start ≤ s
    pub before : s ≤ end
    pub within : at end ≤ at s + window
    pub skipped : (i : ℕ) → start ≤ i → i < s → at i + window < at end

  not_end :
      (end start : ℕ) → start ≤ end → ltb (at start + window) (at end) ≡ true → start + 1 ≤ end
  not_end end start h far = elim (le_split start end h) [
    | inl e ↦ absurd (omega (arith, ltb_below (at start + window) (at end) far, ap at e))
    | inr later ↦ later
  ]

  slide-IsSlid :
      (fuel end start : ℕ)
      → start ≤ end
      → end < fuel + start
      → IsSlid end start (slide window at fuel end start)
  unfolding slide
  slide-IsSlid zero end start h enough = absurd (omega arith)
  slide-IsSlid (suc fuel) end start h enough =
      elim (Bool-cases (ltb (at start + window) (at end))) [
        | inl far ↦
            let inner : IsSlid end (start + 1) (slide window at fuel end (start + 1)) =
              slide-IsSlid fuel end (start + 1) (not_end end start h far) (omega (arith, enough)) in
            rw (far, slide)
              (record {
                after = omega (arith, inner.after);
                before = inner.before;
                within = inner.within;
                skipped = λ i low high. elim (le_split start i low) [
                  | inl e ↦ omega (arith, ltb_below (at start + window) (at end) far, ap at e)
                  | inr later ↦ inner.skipped i later high
                ];
              })
        | inr near ↦
            rw (near, slide)
              (record {
                after = omega arith;
                before = h;
                within = ground (arith, near);
                skipped = λ i low high. absurd (omega (arith, low, high));
              })
      ]

  module _ (min total : ℕ) (in_order : (i j : ℕ) → i ≤ j → j < total → at i ≤ at j) where
    -- What holds before the round for `end`: the items before `start` are too old for every later end,
    -- and the best span is a burst before `end` that none there is longer than.
    pub record IsSwept (end start : ℕ) (best : ℕ × ℕ) : Type 0 where
      pub started : start ≤ end
      pub too_old : (i j : ℕ) → i < start → end ≤ j → j < total → at i + window < at j
      pub best_before : best.0 + best.1 ≤ end
      pub best_dense :
          (k : ℕ) → best.1 ≡ k + 1 → (min ≤ k + 1) × (at (best.0 + k) ≤ at best.0 + window)
      pub best_longest :
          (i k : ℕ) → i + k < end → min ≤ k + 1 → at (i + k) ≤ at i + window → k + 1 ≤ best.1

    module _ (end start : ℕ) (best : ℕ × ℕ) (s : ℕ) (h : end < total)
        (swept : IsSwept end start best) (slid : IsSlid end start s) where
      -- An item before `s` is too old for `end`.
      old : (i : ℕ) → i < s → at i + window < at end
      old i early = elim (Bool-cases (ltb i start)) [
        | inl e ↦ swept.too_old i end (ltb_below i start e) (omega arith) h
        | inr e ↦ slid.skipped i (ground arith) early
      ]

      starts_late : (i k : ℕ) → i + k ≡ end → at (i + k) ≤ at i + window → s ≤ i
      starts_late i k e dense = elim (Bool-cases (ltb i s)) [
        | inl early ↦ absurd (omega (arith, old i (ltb_below i s early), dense, ap at e))
        | inr late ↦ ground arith
      ]

      too_old_later : (i j : ℕ) → i < s → end + 1 ≤ j → j < total → at i + window < at j
      too_old_later i j early late inside =
          omega (arith, old i early, in_order end j (omega (arith, late)) inside)

      longer :
          leb min (end + 1 - s) && ltb best.1 (end + 1 - s) ≡ true
          → IsSwept (end + 1) s (s, end + 1 - s)
      longer better = record {
        started = omega (arith, slid.before);
        too_old = too_old_later;
        best_before = omega (arith, slid.before);
        best_dense = λ k e.
            let last : s + k ≡ end = omega (arith, e, slid.before) in
            (ground arith, omega (arith, slid.within, ap at last));
        best_longest = λ i k inside enough dense.
            elim (le_split (i + k + 1) (end + 1) (omega (arith, inside))) [
              | inl last ↦ omega (arith, starts_late i k (omega (arith, last)) dense, last)
              | inr earlier ↦
                  let shorter : best.1 < end + 1 - s = ground arith in
                  omega
                    (arith, shorter, swept.best_longest i k (omega (arith, earlier)) enough dense)
            ];
      }

      no_longer :
          leb min (end + 1 - s) && ltb best.1 (end + 1 - s) ≡ false → IsSwept (end + 1) s best
      no_longer worse = record {
        started = omega (arith, slid.before);
        too_old = too_old_later;
        best_before = omega (arith, swept.best_before);
        best_dense = swept.best_dense;
        best_longest = λ i k inside enough dense.
            elim (le_split (i + k + 1) (end + 1) (omega (arith, inside))) [
              | inl last ↦
                  let fits : k + 1 ≤ end + 1 - s =
                    omega (arith, starts_late i k (omega (arith, last)) dense, last) in
                  ground (arith, worse, fits, enough)
              | inr earlier ↦ swept.best_longest i k (omega (arith, earlier)) enough dense
            ];
      }

      round-IsSwept :
          let n = end + 1 - s in
          IsSwept (end + 1) s (if leb min n && ltb best.1 n then (s, n) else best)
      round-IsSwept = elim (Bool-cases (leb min (end + 1 - s) && ltb best.1 (end + 1 - s))) [
        | inl better ↦ rw better (longer better)
        | inr worse ↦ rw worse (no_longer worse)
      ]

    sweep-IsSwept :
        (rest end start : ℕ) (best : ℕ × ℕ)
        → end + rest ≡ total
        → IsSwept end start best
        → (start' : ℕ) × IsSwept total start' (sweep window at min rest end start best)
    unfolding sweep
    sweep-IsSwept zero end start best e swept =
        (start, subst (λ t. IsSwept t start best) (omega (arith, e)) swept)
    sweep-IsSwept (suc rest) end start best e swept =
        let slid = slide-IsSlid (end + 1) end start swept.started (omega arith) in
        let s = slide window at (end + 1) end start in
        sweep-IsSwept rest (end + 1) s _ (omega (arith, e))
          (round-IsSwept end start best s (omega (arith, e)) swept slid)

    -- The sweep over all ends.
    pub sweep_ends : (start' : ℕ) × IsSwept total start' (sweep window at min total 0 0 (0, 0))
    sweep_ends =
        sweep-IsSwept total 0 0 (0, 0) (omega arith)
          (record {
            started = omega arith;
            too_old = λ i j early. absurd (omega (arith, early));
            best_before = omega arith;
            best_dense = λ k e. absurd (omega (arith, e));
            best_longest = λ i k inside. absurd (omega (arith, inside));
          })

module _ {A : Type 0} (time : A → ℕ) where
  abbrev pub earlier : A → A → Bool
  earlier x y = leb (time x) (time y)

  pub above :
      (x : A) (xs : List A) (j : ℕ)
      → All (λ y. leb (time x) (time y) ≡ true) xs
      → j < length xs
      → time x ≤ time_at time xs j
  above x [] j h inside = absurd (omega (arith, inside))
  above x (y ∷ ys) zero h inside = ground (arith, h.0)
  above x (y ∷ ys) (suc j) h inside = above x ys j h.1 (omega (arith, inside))

  time_at_mono :
      (xs : List A) (i j : ℕ)
      → IsSorted earlier xs
      → i ≤ j
      → j < length xs
      → time_at time xs i ≤ time_at time xs j
  time_at_mono [] i j s h inside = omega arith
  time_at_mono (x ∷ xs) zero zero s h inside = omega arith
  time_at_mono (x ∷ xs) zero (suc j) s h inside = above x xs j s.0 (omega (arith, inside))
  time_at_mono (x ∷ xs) (suc i) zero s h inside = absurd (omega (arith, h))
  time_at_mono (x ∷ xs) (suc i) (suc j) s h inside =
      time_at_mono xs i j s.1 (omega (arith, h)) (omega (arith, inside))

  -- `best` is a run of items of the list; if it is not empty then it is a burst, `min` items or more of
  -- which the last is at most `window` after the first; and no burst of the list is longer.
  pub record IsLongestBurst (window min : ℕ) (ordered best : List A) : Type 0 where
    pub first : ℕ
    pub run : best ≡ take (length best) (drop first ordered)
    pub inside : first + length best ≤ length ordered
    pub burst :
        (k : ℕ)
        → length best ≡ k + 1
        → (min ≤ k + 1) × (time_at time ordered (first + k) ≤ time_at time ordered first + window)
    pub longest :
        (i k : ℕ)
        → i + k < length ordered
        → min ≤ k + 1
        → time_at time ordered (i + k) ≤ time_at time ordered i + window
        → k + 1 ≤ length best

  -- Of a list in the order of time the sliding window returns the longest burst.
  pub best_span-IsLongestBurst :
      (window min : ℕ) (ordered : List A)
      → IsSorted earlier ordered
      → IsLongestBurst window min ordered (best_span time window min ordered)
  unfolding best_span
  best_span-IsLongestBurst window min ordered sorted =
      let (start, swept) =
        sweep_ends window (time_at time ordered) min (length ordered)
          (λ i j. time_at_mono ordered i j sorted) in
      let best = sweep window (time_at time ordered) min (length ordered) 0 0 (0, 0) in
      let size : length (take best.1 (drop best.0 ordered)) ≡ best.1 = omega (
        arith,
        length-take best.1 (drop best.0 ordered),
        length-drop best.0 ordered,
        swept.best_before,
      ) in
      record {
        first = best.0;
        run = rw size refl;
        inside = omega (arith, size, swept.best_before);
        burst = λ k e. swept.best_dense k (sym size ∙ e);
        longest = λ i k bound enough dense.
            omega (arith, size, swept.best_longest i k bound enough dense);
      }
