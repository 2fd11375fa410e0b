-- ===== src/Gateway/RateLimiter/Hits.antt =====
-- The hits of a client after each operation.
use nexus_ai_team.Prelude.{
  ℕ, ◌≤◌, ◌≡◌, refl, sym, ◌∙◌, String, true, ◌==◌, Option, none, some, List, [], ◌∷◌, length,
  is_empty, get_or, if◌then◌else◌, Bool-cases, inl, inr, arith, eq_iff,
}
use mathlib.Core.Option
use nexus_ai_team.Prelude.Dict.{
  Dict, lookup, assign, keys, delete, map_values, lookup-assign, lookup-delete, lookup-map_values,
}
use nexus_ai_team.Gateway.RateLimiter.{
  InMemorySlidingWindow, recent, hits_of, empty_keys, delete_all, sweep, cleanup,
}

empty-nil : (ts : List ℕ) → is_empty ts ≡ true → ts ≡ []
empty-nil [] h = refl
empty-nil (t ∷ ts) h = cc

pub hits_of-assign :
    (k j : String) (v : List ℕ) (d : Dict (List ℕ))
    → hits_of j (assign k v d) ≡ (if k == j then v else hits_of j d)
unfolding hits_of
hits_of-assign k j v d = rw lookup-assign (ground (arith, eq_iff k j))

hits_of-delete :
    (k j : String) (d : Dict (List ℕ)) → hits_of k d ≡ [] → hits_of j (delete k d) ≡ hits_of j d
unfolding hits_of
hits_of-delete k j d h = rw lookup-delete (ground (arith, eq_iff k j))

-- No entry is lost but those with no hits.
hits_of-delete_all :
    (j : String) (ks : List String) (d e : Dict (List ℕ))
    → ((k : String) → hits_of k e ≡ hits_of k d)
    → hits_of j (delete_all (empty_keys ks d) e) ≡ hits_of j d
unfolding empty_keys delete_all
hits_of-delete_all j [] d e same = same j
hits_of-delete_all j (k ∷ ks) d e same = elim (Bool-cases (is_empty (hits_of k d))) [
  | inl y ↦ rw y (
      hits_of-delete_all j ks d (delete k e)
        λ i. hits_of-delete k i e (same k ∙ empty-nil _ y) ∙ same i)
  | inr n ↦ rw n (hits_of-delete_all j ks d e same)
]

get_or-map :
    (f : List ℕ → List ℕ) (o : Option (List ℕ))
    → f [] ≡ []
    → get_or (Option.map f o) [] ≡ f (get_or o [])
get_or-map f none h = sym h
get_or-map f (some a) h = refl

hits_of-map_values :
    (f : List ℕ → List ℕ) (j : String) (d : Dict (List ℕ))
    → f [] ≡ []
    → hits_of j (map_values f d) ≡ f (hits_of j d)
unfolding hits_of
hits_of-map_values f j d h = rw lookup-map_values (get_or-map f (lookup j d) h)

pub hits_of-cleanup :
    (j : String) (now : ℕ) (s : InMemorySlidingWindow)
    → hits_of j (cleanup now s).hits ≡ recent s.window now (hits_of j s.hits)
unfolding cleanup sweep recent
hits_of-cleanup j now s =
    hits_of-delete_all j (keys (map_values (recent s.window now) s.hits)) _ _ (λ k. refl)
    ∙ hits_of-map_values (recent s.window now) j s.hits refl

pub length-recent : (window now : ℕ) (ts : List ℕ) → length (recent window now ts) ≤ length ts
unfolding recent
length-recent window now [] = omega arith
length-recent window now (t ∷ ts) = ground (arith, length-recent window now ts)
