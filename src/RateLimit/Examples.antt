-- ===== src/RateLimit/Examples.antt =====
-- Three calls of one key within a window of ten, of which two are admitted
-- (src/thumbelina/security/rate_limit.py).
use thumbelina.Prelude.{ℕ, ◌≤◌, String, List, [], ◌∷◌, ◌≡◌, arith, keep, length}
use thumbelina.RateLimit.{RateLimiter, times, live}
use thumbelina.RateLimit.Answers.{Call, InOrder, serve, fresh, in_window, no_window_exceeds}

abbrev call_at : ℕ → Call
call_at n = record {
  key = "10.0.0.1";
  clock = record { at_check = n; at_sweep = n; at_clean = n; at_append = n };
}

abbrev three_calls : List Call
three_calls = call_at 1 ∷ call_at 2 ∷ call_at 3 ∷ []

abbrev served : RateLimiter × List (String × ℕ)
served = serve (fresh 2 10 60 0) [] three_calls

three_calls-InOrder : InOrder 0 three_calls
three_calls-InOrder = (
  omega arith,
  omega arith,
  omega arith,
  omega arith,
  (
    omega arith,
    omega arith,
    omega arith,
    omega arith,
    (omega arith, omega arith, omega arith, omega arith, tt),
  ),
)

no_window_exceeds_example :
    (length (in_window 10 4 "10.0.0.1" served.1) ≤ 2)
    × (keep (live 10 4) (times "10.0.0.1" served.0.requests) ≡ in_window 10 4 "10.0.0.1" served.1)
no_window_exceeds_example =
    no_window_exceeds 2 10 60 0 three_calls 4 "10.0.0.1" three_calls-InOrder (omega arith)
