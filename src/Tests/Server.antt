-- ===== src/Tests/Server.antt =====
-- Instances of the results on the rate limiter.
use p2p_transmission.Prelude.{ℕ, ◌≡◌, ◌+◌, ◌≤◌, refl, [], ◌∷◌, arith}
use p2p_transmission.Prelude.Text.{text}
use p2p_transmission.OrdMap.Order.{same, text_cmp}
use p2p_transmission.OrdMap.Map.{get, insert, contains_key}
use p2p_transmission.Server.RateLimit.{RatePolicy, RateWindow, RateLimiter, admit, check}
use p2p_transmission.Server.RateLimit.Window.{Call, admitted, admitted-le}
use p2p_transmission.Server.RateLimit.Memory.{IsBounded, after, after-IsBounded}

abbrev two_a_second : RatePolicy
two_a_second = record { max_requests = 2; window_ms = 1000 }

abbrev join : ℕ → Call
join now = record { bucket = text "join"; key = text "session_1"; policy = two_a_second; now = now }

abbrev open_window : RateWindow
open_window = record { count = 1; resets_at_ms = 1100 }

abbrev limiter : RateLimiter
limiter = (text "join:session_1", open_window) ∷ []

-- The second call is counted, the third is not.
two_calls : admitted (text "join:session_1") limiter (join 101 ∷ join 102 ∷ []) ≡ 1
unfolding check admit get insert contains_key same text_cmp
two_calls = refl

admitted-le_example : 1 + admitted (text "join:session_1") limiter (join 101 ∷ join 102 ∷ []) ≤ 2
unfolding get same text_cmp
admitted-le_example =
    admitted-le (text "join:session_1") 2 open_window limiter (join 101 ∷ join 102 ∷ []) refl
      (omega arith)
      (
        record { in_time = omega arith; limited = λ e. omega arith },
        (record { in_time = omega arith; limited = λ e. omega arith }, tt),
      )

after-IsBounded_example : IsBounded (after [] (join 100 ∷ join 101 ∷ []))
after-IsBounded_example = after-IsBounded (join 100 ∷ join 101 ∷ [])
