-- ===== src/Gateway/RateLimiter/Window.antt =====
-- How many requests of a client the window lets through.
use nexus_ai_team.Prelude.{
  ℕ, ◌+◌, ◌≤◌, ◌<◌, ◌≡◌, refl, ltb, leb, String, Bool, false, ◌==◌, ◌&&◌, List, [], ◌∷◌, ◌++◌,
  length, if◌then◌else◌, Bool-cases, inl, inr, length-append, arith, eq_iff,
}
use nexus_ai_team.Prelude.Dict.{lookup}
use nexus_ai_team.Gateway.RateLimiter.{
  InMemorySlidingWindow, new_window, recent, hits_of, admit, is_allowed, cleanup,
}
use nexus_ai_team.Gateway.RateLimiter.Calls.{Call, asks, cleans, Follows, allowed}
use nexus_ai_team.Gateway.RateLimiter.Hits.{hits_of-assign, hits_of-cleanup, length-recent}

-- How many of the times are after `start` and not after `start + window`.
abbrev pub count_within : (start window : ℕ) → List ℕ → ℕ
count_within start window [] = 0
count_within start window (t ∷ ts) =
    (if ltb start t && leb t (start + window) then 1 else 0) + count_within start window ts

count_within-length : (start window : ℕ) (ts : List ℕ) → count_within start window ts ≤ length ts
count_within-length start window [] = omega arith
count_within-length start window (t ∷ ts) = ground (arith, count_within-length start window ts)

-- Up to the end of the window that is counted, no hit in it is dropped.
count_within-recent :
    (start window now : ℕ) (ts : List ℕ)
    → now ≤ start + window
    → count_within start window ts ≤ count_within start window (recent window now ts)
unfolding recent
count_within-recent start window now [] h = omega arith
count_within-recent start window now (t ∷ ts) h =
    ground (arith, count_within-recent start window now ts h)

count_within-append :
    (start window : ℕ) (xs ys : List ℕ)
    → count_within start window (xs ++ ys)
      ≡ count_within start window xs + count_within start window ys
count_within-append start window [] ys = omega arith
count_within-append start window (x ∷ xs) ys = omega (arith, count_within-append start window xs ys)

module _ (key : String) (max_requests window : ℕ) where
  pub record IsLimited (s : InMemorySlidingWindow) : Type 0 where
    pub capacity : s.max_requests ≡ max_requests
    pub span : s.window ≡ window
    pub capped : length (hits_of key s.hits) ≤ max_requests

  -- What was counted before, and the request at `now` if it is let through, is counted after.
  abbrev Gains : (start now : ℕ) → Bool → (before after : InMemorySlidingWindow) → Type 0
  Gains start now through before after =
      now ≤ start + window
      → count_within start window (hits_of key before.hits)
          + (if through then count_within start window (now ∷ []) else 0)
        ≤ count_within start window (hits_of key after.hits)

  admit-IsLimited :
      (k : String) (start now : ℕ) (s : InMemorySlidingWindow)
      → IsLimited s
      → IsLimited (is_allowed k now s).1
        × Gains start now ((k == key) && (is_allowed k now s).0) s (is_allowed k now s).1
  unfolding is_allowed admit
  admit-IsLimited k start now s i =
      elim (Bool-cases (leb s.max_requests (length (recent s.window now (hits_of k s.hits))))) [
        | inl full ↦ rw full (
          record {
            capacity = i.capacity;
            span = i.span;
            capped =
                let kept = recent s.window now (hits_of k s.hits) in
                ground (
                  arith,
                  eq_iff k key,
                  hits_of-assign k key kept s.hits,
                  length-recent s.window now (hits_of k s.hits),
                  i.capped,
                );
          },
          λ h.
              let kept = recent s.window now (hits_of k s.hits) in
              ground (
                arith,
                eq_iff k key,
                hits_of-assign k key kept s.hits,
                i.span,
                count_within-recent start s.window now (hits_of k s.hits),
              ),
        )
        | inr free ↦ rw free (
          record {
            capacity = i.capacity;
            span = i.span;
            capped =
                let kept = recent s.window now (hits_of k s.hits) in
                ground (
                  arith,
                  eq_iff k key,
                  hits_of-assign k key (kept ++ (now ∷ [])) s.hits,
                  length-append kept (now ∷ []),
                  i.capacity,
                  i.capped,
                );
          },
          λ h.
              let kept = recent s.window now (hits_of k s.hits) in
              ground (
                arith,
                eq_iff k key,
                hits_of-assign k key (kept ++ (now ∷ [])) s.hits,
                i.span,
                count_within-append start window kept (now ∷ []),
                count_within-recent start s.window now (hits_of k s.hits),
              ),
        )
      ]

  cleanup-IsLimited :
      (start now : ℕ) (s : InMemorySlidingWindow)
      → IsLimited s
      → IsLimited (cleanup now s) × Gains start now false s (cleanup now s)
  unfolding cleanup
  cleanup-IsLimited start now s i = (
    record {
      capacity = i.capacity;
      span = i.span;
      capped = ground (
        arith,
        hits_of-cleanup key now s,
        length-recent s.window now (hits_of key s.hits),
        i.capped,
      );
    },
    λ h. ground (
      arith,
      hits_of-cleanup key now s,
      count_within-recent start s.window now (hits_of key s.hits),
      i.span,
    ),
  )

  -- Calls after the window that is counted add nothing to it.
  allowed-late :
      (start from : ℕ) (cs : List Call) (s : InMemorySlidingWindow)
      → start + window < from
      → Follows from cs
      → count_within start window (allowed key cs s) ≡ 0
  unfolding allowed
  allowed-late start from [] s late f = refl
  allowed-late start from (asks k now ∷ cs) s late f =
      ground (arith, allowed-late start now cs (is_allowed k now s).1 (omega arith) f.1)
  allowed-late start from (cleans now ∷ cs) s late f =
      allowed-late start now cs (cleanup now s) (omega (arith, f.0)) f.1

  allowed-within :
      (start from : ℕ) (cs : List Call) (s : InMemorySlidingWindow)
      → Follows from cs
      → IsLimited s
      → count_within start window (allowed key cs s)
          + count_within start window (hits_of key s.hits)
        ≤ max_requests
  unfolding allowed
  allowed-within start from [] s f i =
      omega (arith, count_within-length start window (hits_of key s.hits), i.capped)
  allowed-within start from (asks k now ∷ cs) s f i =
      let (j, gain) = admit-IsLimited k start now s i in
      let later = allowed-within start now cs (is_allowed k now s).1 f.1 j in
      ground (
        arith,
        later,
        gain,
        i.capped,
        allowed-late start now cs (is_allowed k now s).1,
        count_within-length start window (hits_of key s.hits),
      )
  allowed-within start from (cleans now ∷ cs) s f i =
      let (j, gain) = cleanup-IsLimited start now s i in
      let later = allowed-within start now cs (cleanup now s) f.1 j in
      ground (
        arith,
        later,
        gain,
        i.capped,
        allowed-late start now cs (cleanup now s),
        count_within-length start window (hits_of key s.hits),
      )

  -- In any sequence of requests and cleanups on a fresh window, at times that do not go back, every
  -- span of `window` time, from after `start` up to `start + window`, lets at most `max_requests`
  -- requests of a client through.
  pub allowed_bounded :
      (start from : ℕ) (cs : List Call)
      → Follows from cs
      → count_within start window (allowed key cs (new_window max_requests window)) ≤ max_requests
  unfolding new_window hits_of lookup
  allowed_bounded start from cs f = omega (
    arith,
    allowed-within start from cs (new_window max_requests window) f
        (record { capacity = refl; span = refl; capped = omega arith }),
  )
