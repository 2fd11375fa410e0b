-- ===== src/Gateway/RateLimiter/Tests.antt =====
-- Runs of a window of ten units that lets two requests through.
use nexus_ai_team.Prelude.{◌≤◌, ◌≡◌, refl, ltb, List, [], ◌∷◌, arith}
use nexus_ai_team.Gateway.RateLimiter.{new_window, is_allowed, cleanup}
use nexus_ai_team.Gateway.RateLimiter.Calls.{Call, asks, cleans, allowed}
use nexus_ai_team.Gateway.RateLimiter.Window.{count_within, allowed_bounded}
use nexus_ai_team.Gateway.RateLimiter.Decision.{after_calls, count_last, is_allowed_iff}

abbrev calls : List Call
calls = asks "a" 1 ∷ asks "b" 2 ∷ asks "a" 3 ∷ asks "a" 4 ∷ cleans 12 ∷ asks "a" 12 ∷ []

allowed_times : allowed "a" calls (new_window 2 10) ≡ 1 ∷ 3 ∷ 12 ∷ []
unfolding allowed is_allowed new_window cleanup
allowed_times = refl

allowed_bounded_example : count_within 2 10 (allowed "a" calls (new_window 2 10)) ≤ 2
allowed_bounded_example = allowed_bounded "a" 2 10 2 0 calls (ground arith)

is_allowed_iff_example :
    (is_allowed "a" 12 (after_calls calls (new_window 2 10))).0
    ≡ ltb (count_last 10 12 (allowed "a" calls (new_window 2 10))) 2
is_allowed_iff_example = is_allowed_iff "a" 2 10 12 calls (ground arith)
