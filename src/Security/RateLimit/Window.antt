-- ===== src/Security/RateLimit/Window.antt =====
-- The requests that src/acip/core/security/ratelimit.py lets through, on a clock that does not run
-- backwards.
use text.Mathlib.Text.{◌==◌ as str_eq}
use text.Mathlib.TextEquality.{eq_iff}
use agentic_cyber_investigat.Prelude.{
  ℕ, ◌≤◌, ◌<◌, ◌≡◌, ◌↔◌, refl, sym, ap, ◌∙◌, String, List, [], ◌∷◌, ◌++◌, length, select,
  select-append, length-select, length-append, leb, arith, Bool-cases, inl, inr,
}
use agentic_cyber_investigat.Prelude.Result.{Result, ok, err}
use agentic_cyber_investigat.Security.RateLimit.{Limiter, ticks, is_active, assign, Refusal, check}

-- The times of the requests that were let through, by key.
abbrev pub logged : (String → List ℕ) → String → Result Refusal ℕ → String → List ℕ
logged log key (err e) = log
logged log key (ok now) = assign log key (log key ++ now ∷ [])

-- A new limiter after any checks, the log of what it let through, and the time of the last check.
pub data Reach (max_requests window_seconds : ℕ) : Limiter → (String → List ℕ) → ℕ → Type 0 where
  start :
      Reach max_requests window_seconds
        (record {
          max_requests = max_requests;
          window_seconds = window_seconds;
          history = λ key. [];
        })
        (λ key. [])
        0
  checked :
      {l : Limiter} {log : String → List ℕ} {last : ℕ}
      → Reach max_requests window_seconds l log last
      → (key : String) (now : ℕ) → last ≤ now
      → Reach max_requests window_seconds
          (check l key now).0
          (logged log key (check l key now).1)
          now

-- The requests of a log that are inside the window that ends at a time.
abbrev pub within_window : Limiter → ℕ → List ℕ → List ℕ
within_window l time = select (is_active (ticks l.window_seconds) time)

record Inv (l : Limiter) (log : String → List ℕ) (last : ℕ) : Type 0 where
  same :
      (time : ℕ) (key : String)
      → last ≤ time
      → within_window l time (log key) ≡ within_window l time (l.history key)
  few : (key : String) → length (l.history key) ≤ l.max_requests

-- What is active later was active before.
select-select :
    (window now time : ℕ) (ts : List ℕ)
    → now ≤ time
    → select (is_active window time) (select (is_active window now) ts)
      ≡ select (is_active window time) ts
select-select window now time [] h = refl
select-select window now time (t ∷ ts) h = ground (arith, select-select window now time ts h)

pruned-Inv :
    (l : Limiter) (log : String → List ℕ) (last now : ℕ) (key : String)
    → Inv l log last
    → last ≤ now
    → Inv
        (record l { history = assign l.history key (within_window l now (l.history key)) })
        log
        now
pruned-Inv l log last now key inv later = record {
  same = λ time k h. elim (Bool-cases (str_eq k key)) [
    | inl e ↦ rw e (
        ap (λ j. within_window l time (log j)) ((eq_iff k key).0 e)
        ∙ inv.same time key (omega arith)
        ∙ sym (select-select (ticks l.window_seconds) now time (l.history key) h))
    | inr e ↦ rw e (inv.same time k (omega arith))
  ];
  few = λ k. elim (Bool-cases (str_eq k key)) [
    | inl e ↦ rw e (
        omega (
          arith,
          length-select (is_active (ticks l.window_seconds) now) (l.history key),
          inv.few key,
        ))
    | inr e ↦ rw e (inv.few k)
  ];
}

accepted-Inv :
    (l : Limiter) (log : String → List ℕ) (last now : ℕ) (key : String)
    → Inv l log last
    → last ≤ now
    → length (within_window l now (l.history key)) < l.max_requests
    → Inv
        (record l {
          history = assign l.history key (within_window l now (l.history key) ++ now ∷ []);
        })
        (assign log key (log key ++ now ∷ []))
        now
accepted-Inv l log last now key inv later room = record {
  same = λ time k h. elim (Bool-cases (str_eq k key)) [
    | inl e ↦ rw e (
        select-append (is_active (ticks l.window_seconds) time) (log key) (now ∷ [])
        ∙ ap (λ ts. ts ++ within_window l time (now ∷ []))
            (inv.same time key (omega arith)
              ∙ sym (select-select (ticks l.window_seconds) now time (l.history key) h))
        ∙ sym (
            select-append (is_active (ticks l.window_seconds) time)
              (within_window l now (l.history key)) (now ∷ [])))
    | inr e ↦ rw e (inv.same time k (omega arith))
  ];
  few = λ k. elim (Bool-cases (str_eq k key)) [
    | inl e ↦ rw e (omega (arith, length-append (within_window l now (l.history key)) (now ∷ [])))
    | inr e ↦ rw e (inv.few k)
  ];
}

check-Inv :
    (l : Limiter) (log : String → List ℕ) (last now : ℕ) (key : String)
    → Inv l log last
    → last ≤ now
    → Inv (check l key now).0 (logged log key (check l key now).1) now
unfolding check
check-Inv l log last now key inv later =
    let active = within_window l now (l.history key) in
    elim (Bool-cases (leb l.max_requests (length active))) [
      | inl e ↦ rw (e, check) (pruned-Inv l log last now key inv later)
      | inr e ↦ rw (e, check) (accepted-Inv l log last now key inv later (ground arith))
    ]

Reach-Inv :
    (max_requests window_seconds : ℕ) (l : Limiter) (log : String → List ℕ) (last : ℕ)
    → Reach max_requests window_seconds l log last
    → Inv l log last
Reach-Inv max_requests window_seconds _ _ _ start = record {
  same = λ time key h. refl;
  few = λ key. omega arith;
}
Reach-Inv max_requests window_seconds _ _ _ (checked before key now later) =
    check-Inv _ _ _ now key (Reach-Inv max_requests window_seconds _ _ _ before) later

-- Where the requests are checked one after the other in the order of their times, at any time from the last
-- check on at most `max_requests` of a key's requests that were let through lie in the window that ends
-- then.
pub Reach-le_max :
    (max_requests window_seconds : ℕ) (l : Limiter) (log : String → List ℕ) (last : ℕ)
    → Reach max_requests window_seconds l log last
    → (key : String) (time : ℕ) → last ≤ time
    → length (within_window l time (log key)) ≤ l.max_requests
Reach-le_max max_requests window_seconds l log last reach key time later =
    let inv = Reach-Inv max_requests window_seconds l log last reach in
    let bound = inv.few key in
    rw (inv.same time key later)
      (omega (arith, length-select (is_active (ticks l.window_seconds) time) (l.history key)))

-- Where the requests are checked one after the other in the order of their times, one that comes no earlier
-- than the last is let through exactly when fewer than `max_requests` of its key's requests that were let
-- through lie in the window that ends with it.
pub check-ok_iff :
    (max_requests window_seconds : ℕ) (l : Limiter) (log : String → List ℕ) (last : ℕ)
    → Reach max_requests window_seconds l log last
    → (key : String) (now : ℕ) → last ≤ now
    → ((check l key now).1 ≡ ok now) ↔ (length (within_window l now (log key)) < l.max_requests)
unfolding check
check-ok_iff max_requests window_seconds l log last reach key now later =
    let inv = Reach-Inv max_requests window_seconds l log last reach in
    let active = within_window l now (l.history key) in
    rw (inv.same now key later) (elim (Bool-cases (leb l.max_requests (length active))) [
      | inl e ↦ rw (e, check) (λ h. cc, λ h. absurd (ground arith))
      | inr e ↦ rw (e, check) (λ h. ground arith, λ h. refl)
    ])
