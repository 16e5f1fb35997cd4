-- ===== src/Security/Examples.antt =====
-- A limiter of two requests a minute, and three requests of one client.
use agentic_cyber_investigat.Prelude.{ℕ, ◌≤◌, ◌<◌, ◌≡◌, ◌↔◌, refl, String, List, [], length, arith}
use agentic_cyber_investigat.Prelude.Result.{Result, ok, err}
use agentic_cyber_investigat.Security.RateLimit.{Limiter, Refusal, rate_limited, check}
use agentic_cyber_investigat.Security.RateLimit.Window.{
  logged, Reach, start, checked, within_window, Reach-le_max, check-ok_iff,
}

abbrev fresh : Limiter
fresh = record { max_requests = 2; window_seconds = 60; history = λ key. [] }

abbrev one : Limiter × Result Refusal ℕ
one = check fresh "10.0.0.1" 5

abbrev two : Limiter × Result Refusal ℕ
two = check one.0 "10.0.0.1" 7000000

abbrev log_one : String → List ℕ
log_one = logged (λ key. []) "10.0.0.1" one.1

abbrev log_two : String → List ℕ
log_two = logged log_one "10.0.0.1" two.1

check_runs :
    (one.1 ≡ ok 5)
    × (two.1 ≡ ok 7000000)
    × ((check two.0 "10.0.0.1" 8000000).1 ≡ err (rate_limited 52))
    × ((check two.0 "10.0.0.2" 8000000).1 ≡ ok 8000000)
    × ((check two.0 "10.0.0.1" 60000005).1 ≡ ok 60000005)
unfolding check
check_runs = (refl, refl, refl, refl, refl)

reach_two : Reach 2 60 two.0 log_two 7000000
reach_two = checked (checked start "10.0.0.1" 5 (omega arith)) "10.0.0.1" 7000000 (omega arith)

Reach-le_max_example :
    length (within_window two.0 8000000 (log_two "10.0.0.1")) ≤ two.0.max_requests
Reach-le_max_example =
    Reach-le_max 2 60 two.0 log_two 7000000 reach_two "10.0.0.1" 8000000 (omega arith)

check-ok_iff_example :
    ((check two.0 "10.0.0.1" 8000000).1 ≡ ok 8000000)
    ↔ (length (within_window two.0 8000000 (log_two "10.0.0.1")) < two.0.max_requests)
check-ok_iff_example =
    check-ok_iff 2 60 two.0 log_two 7000000 reach_two "10.0.0.1" 8000000 (omega arith)
