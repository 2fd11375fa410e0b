-- ===== src/Gateway/RateLimiter/Calls.antt =====
-- A sequence of calls on the window, and the requests that it lets through.
use nexus_ai_team.Prelude.{ℕ, ◌≤◌, String, ◌==◌, ◌&&◌, List, [], ◌∷◌, if◌then◌else◌}
use nexus_ai_team.Gateway.RateLimiter.{InMemorySlidingWindow, is_allowed, cleanup}

pub data Call : Type 0 where
  asks : String → ℕ → Call
  cleans : ℕ → Call

abbrev pub time : Call → ℕ
time (asks key now) = now
time (cleans now) = now

-- The calls come at times that do not go back, from `start` on.
abbrev pub Follows : ℕ → List Call → Type 0
Follows start [] = Unit
Follows start (c ∷ cs) = (start ≤ time c) × Follows (time c) cs

-- The times at which the requests of `key` are let through.
unfoldable pub allowed : String → List Call → InMemorySlidingWindow → List ℕ
allowed key [] s = []
allowed key (asks k now ∷ cs) s =
    let later = allowed key cs (is_allowed k now s).1 in
    if (k == key) && (is_allowed k now s).0 then now ∷ later else later
allowed key (cleans now ∷ cs) s = allowed key cs (cleanup now s)
