-- ===== src/Gateway/RateLimiter/Decision.antt =====
-- When the window lets a request through.
use nexus_ai_team.Prelude.{
  ℕ, ◌+◌, ◌≤◌, ◌≡◌, refl, ◌∙◌, ltb, leb, String, Bool, false, ◌==◌, ◌&&◌, List, [], ◌∷◌, ◌++◌,
  length, All, if◌then◌else◌, Bool-cases, inl, inr, arith, eq_iff,
}
use nexus_ai_team.Prelude.Dict.{lookup}
use nexus_ai_team.Gateway.RateLimiter.{
  InMemorySlidingWindow, new_window, recent, hits_of, admit, is_allowed, cleanup,
}
use nexus_ai_team.Gateway.RateLimiter.Calls.{Call, asks, cleans, time, allowed}
use nexus_ai_team.Gateway.RateLimiter.Hits.{hits_of-assign, hits_of-cleanup}

recent-append :
    (window now : ℕ) (xs ys : List ℕ)
    → length (recent window now (xs ++ ys))
      ≡ length (recent window now xs) + length (recent window now ys)
unfolding recent
recent-append window now [] ys = omega arith
recent-append window now (x ∷ xs) ys = ground (arith, recent-append window now xs ys)

-- What is dropped at an earlier time is not missed later.
recent-recent :
    (window earlier at : ℕ) (ts : List ℕ)
    → earlier ≤ at
    → length (recent window at (recent window earlier ts)) ≡ length (recent window at ts)
unfolding recent
recent-recent window earlier at [] h = refl
recent-recent window earlier at (t ∷ ts) h = ground (arith, recent-recent window earlier at ts h)

decision :
    (key : String) (now : ℕ) (s : InMemorySlidingWindow)
    → (is_allowed key now s).0
      ≡ ltb (length (recent s.window now (hits_of key s.hits))) s.max_requests
unfolding is_allowed admit
decision key now s =
    elim (Bool-cases (leb s.max_requests (length (recent s.window now (hits_of key s.hits))))) [
      | inl full ↦ rw full (ground (arith, full))
      | inr free ↦ rw free (ground (arith, free))
    ]

-- How many of the times are less than `window` before the time `at`.
abbrev pub count_last : (window at : ℕ) → List ℕ → ℕ
count_last window at [] = 0
count_last window at (t ∷ ts) = (if ltb at (t + window) then 1 else 0) + count_last window at ts

length-recent :
    (window at : ℕ) (ts : List ℕ) → length (recent window at ts) ≡ count_last window at ts
unfolding recent
length-recent window at [] = refl
length-recent window at (t ∷ ts) = ground (arith, length-recent window at ts)

-- The window after the calls.
unfoldable pub after_calls : List Call → InMemorySlidingWindow → InMemorySlidingWindow
after_calls [] s = s
after_calls (asks k now ∷ cs) s = after_calls cs (is_allowed k now s).1
after_calls (cleans now ∷ cs) s = after_calls cs (cleanup now s)

module _ (key : String) (max_requests window at : ℕ) where
  -- The requests in a list of times that are still in the window at time `at`.
  abbrev young : List ℕ → ℕ
  young ts = length (recent window at ts)

  record HasLimits (s : InMemorySlidingWindow) : Type 0 where
    capacity : s.max_requests ≡ max_requests
    span : s.window ≡ window

  abbrev Gains : Bool → ℕ → (before next : InMemorySlidingWindow) → Type 0
  Gains through now before next =
      young (hits_of key next.hits)
      ≡ young (hits_of key before.hits) + (if through then young (now ∷ []) else 0)

  is_allowed-Gains :
      (k : String) (now : ℕ) (s : InMemorySlidingWindow)
      → now ≤ at
      → HasLimits s
      → HasLimits (is_allowed k now s).1
        × Gains ((k == key) && (is_allowed k now s).0) now s (is_allowed k now s).1
  unfolding is_allowed admit
  is_allowed-Gains k now s h i =
      let kept = recent s.window now (hits_of k s.hits) in
      elim (Bool-cases (leb s.max_requests (length kept))) [
        | inl full ↦ rw full (
          record { capacity = i.capacity; span = i.span },
          ground (
            arith,
            eq_iff k key,
            hits_of-assign k key kept s.hits,
            i.span,
            recent-recent s.window now at (hits_of k s.hits),
          ),
        )
        | inr free ↦ rw free (
          record { capacity = i.capacity; span = i.span },
          ground (
            arith,
            eq_iff k key,
            hits_of-assign k key (kept ++ (now ∷ [])) s.hits,
            i.span,
            recent-append window at kept (now ∷ []),
            recent-recent s.window now at (hits_of k s.hits),
          ),
        )
      ]

  cleanup-Gains :
      (now : ℕ) (s : InMemorySlidingWindow)
      → now ≤ at
      → HasLimits s
      → HasLimits (cleanup now s) × Gains false now s (cleanup now s)
  unfolding cleanup
  cleanup-Gains now s h i = (
    record { capacity = i.capacity; span = i.span },
    ground (
      arith,
      hits_of-cleanup key now s,
      i.span,
      recent-recent s.window now at (hits_of key s.hits),
    ),
  )

  after_calls-young :
      (cs : List Call) (s : InMemorySlidingWindow)
      → All (λ c. time c ≤ at) cs
      → HasLimits s
      → HasLimits (after_calls cs s)
        × (young (hits_of key (after_calls cs s).hits)
            ≡ young (hits_of key s.hits) + young (allowed key cs s))
  unfolding after_calls allowed recent
  after_calls-young [] s past i = (i, omega arith)
  after_calls-young (asks k now ∷ cs) s past i =
      let (j, gain) = is_allowed-Gains k now s past.0 i in
      let (last, rest) = after_calls-young cs (is_allowed k now s).1 past.1 j in
      (last, ground (arith, gain, rest))
  after_calls-young (cleans now ∷ cs) s past i =
      let (j, gain) = cleanup-Gains now s past.0 i in
      let (last, rest) = after_calls-young cs (cleanup now s) past.1 j in
      (last, ground (arith, gain, rest))

  -- After any sequence of requests and cleanups on a fresh window, none of them later than `at`, a
  -- request at time `at` is let through exactly when fewer than `max_requests` of the client's
  -- requests that were let through lie less than `window` before `at`.
  pub is_allowed_iff :
      (cs : List Call)
      → All (λ c. time c ≤ at) cs
      → (is_allowed key at (after_calls cs (new_window max_requests window))).0
        ≡ ltb (count_last window at (allowed key cs (new_window max_requests window))) max_requests
  unfolding new_window hits_of lookup recent
  is_allowed_iff cs past =
      let s = new_window max_requests window in
      let (last, same) = after_calls-young cs s past (record { capacity = refl; span = refl }) in
      decision key at (after_calls cs s)
      ∙ ground (arith, same, last.capacity, last.span, length-recent window at (allowed key cs s))
