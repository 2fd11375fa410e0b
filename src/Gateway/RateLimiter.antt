-- ===== src/Gateway/RateLimiter.antt =====
-- gateway/rate_limiter.py: the sliding window in memory, which limits the requests of a client
-- while Redis cannot be reached. `now` is what time.monotonic() reads, in any unit; `t > now -
-- window` is written without the subtraction.
pub mod Calls
pub mod Hits
pub mod Window
pub mod Decision
mod Tests
use nexus_ai_team.Prelude.{
  ℕ, ◌+◌, ltb, leb, String, Bool, true, false, List, [], ◌∷◌, ◌++◌, length, is_empty, get_or,
  if◌then◌else◌,
}
use nexus_ai_team.Prelude.Dict.{Dict, lookup, assign, keys, delete, map_values}

pub record InMemorySlidingWindow : Type 0 where
  pub max_requests : ℕ
  pub window : ℕ
  pub hits : Dict (List ℕ)

unfoldable pub new_window : (max_requests window : ℕ) → InMemorySlidingWindow
new_window max_requests window = record { max_requests = max_requests; window = window; hits = [] }

-- The hits that are younger than the window.
unfoldable pub recent : (window now : ℕ) → List ℕ → List ℕ
recent window now [] = []
recent window now (t ∷ ts) =
    let rest = recent window now ts in if ltb now (t + window) then t ∷ rest else rest

-- self._hits[key] of the defaultdict
unfoldable pub hits_of : String → Dict (List ℕ) → List ℕ
unfolding lookup
hits_of key hits = get_or (lookup key hits) []

admit : String → ℕ → List ℕ → InMemorySlidingWindow → Bool × InMemorySlidingWindow
admit key now kept s =
    if leb s.max_requests (length kept)
    then (false, record s { hits = assign key kept s.hits })
    else (true, record s { hits = assign key (kept ++ (now ∷ [])) s.hits })

unfoldable pub is_allowed : String → ℕ → InMemorySlidingWindow → Bool × InMemorySlidingWindow
unfolding admit recent hits_of assign
is_allowed key now s = admit key now (recent s.window now (hits_of key s.hits)) s

empty_keys : List String → Dict (List ℕ) → List String
unfolding hits_of
empty_keys [] hits = []
empty_keys (key ∷ rest) hits =
    let others = empty_keys rest hits in
    if is_empty (hits_of key hits) then key ∷ others else others

delete_all : List String → Dict (List ℕ) → Dict (List ℕ)
unfolding delete
delete_all [] hits = hits
delete_all (key ∷ rest) hits = delete_all rest (delete key hits)

sweep : Dict (List ℕ) → Dict (List ℕ)
unfolding empty_keys delete_all keys
sweep hits = delete_all (empty_keys (keys hits) hits) hits

unfoldable pub cleanup : ℕ → InMemorySlidingWindow → InMemorySlidingWindow
unfolding sweep map_values recent
cleanup now s = record s { hits = sweep (map_values (recent s.window now) s.hits) }
