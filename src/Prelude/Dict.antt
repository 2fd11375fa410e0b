-- ===== src/Prelude/Dict.antt =====
-- Python's `dict` with text keys, as an association list in order of insertion.
use mathlib.Core.Path.{◌≡◌, refl, ap}
use mathlib.Core.List.{List, [], ◌∷◌, ◌++◌}
use mathlib.Core.Logic.{inl, inr}
use mathlib.Core.Option.{Option, none, some}
use mathlib.Core.Option
use Prim.Native.String.{String}
use native.Mathlib.Omega.{arith}
use text.Mathlib.Text.{◌==◌}
use text.Mathlib.TextEquality.{eq_iff}
use nexus_ai_team.Prelude.Lists.{get_or}
use nexus_ai_team.Prelude.Tests.{if◌then◌else◌, Bool-cases}

abbrev pub Dict {ℓ} : Type ℓ → Type ℓ
Dict V = List (String × V)

module _ {ℓ} {V : Type ℓ} where
  -- d.get(k)
  unfoldable pub lookup : String → Dict V → Option V
  lookup k [] = none
  lookup k ((j, v) ∷ d) = if j == k then some v else lookup k d

  -- d[k] = v; a key that is there keeps its place.
  unfoldable pub assign : String → V → Dict V → Dict V
  assign k v [] = (k, v) ∷ []
  assign k v ((j, w) ∷ d) = if j == k then (j, v) ∷ d else (j, w) ∷ assign k v d

  -- d.values()
  unfoldable pub values : Dict V → List V
  values [] = []
  values ((j, v) ∷ d) = v ∷ values d

  -- list(d)
  unfoldable pub keys : Dict V → List String
  keys [] = []
  keys ((j, v) ∷ d) = j ∷ keys d

  -- del d[k]
  unfoldable pub delete : String → Dict V → Dict V
  delete k [] = []
  delete k ((j, v) ∷ d) = let rest = delete k d in if j == k then rest else (j, v) ∷ rest

  -- d[k] = f(v) for each k and v of d
  unfoldable pub map_values : (V → V) → Dict V → Dict V
  map_values f [] = []
  map_values f ((j, v) ∷ d) = (j, f v) ∷ map_values f d

  pub lookup-delete :
      (k j : String) (d : Dict V) → lookup j (delete k d) ≡ (if k == j then none else lookup j d)
  unfolding lookup delete
  lookup-delete k j [] = ground (arith, eq_iff k j)
  lookup-delete k j ((i, w) ∷ d) =
      ground (arith, eq_iff k j, eq_iff i k, eq_iff i j, lookup-delete k j d)

  pub lookup-map_values :
      (f : V → V) (j : String) (d : Dict V) → lookup j (map_values f d) ≡ Option.map f (lookup j d)
  unfolding lookup map_values
  lookup-map_values f j [] = refl
  lookup-map_values f j ((i, w) ∷ d) = elim (Bool-cases (i == j)) [
    | inl y ↦ rw y
    | inr n ↦ rw n (lookup-map_values f j d)
  ]

  pub lookup-assign :
      (k j : String) (v : V) (d : Dict V)
      → lookup j (assign k v d) ≡ (if k == j then some v else lookup j d)
  unfolding lookup assign
  lookup-assign k j v [] = refl
  lookup-assign k j v ((i, w) ∷ d) =
      ground (arith, eq_iff k j, eq_iff i k, eq_iff i j, lookup-assign k j v d)

module _ {ℓ} {A : Type ℓ} where
  -- d.get(k, [])
  unfoldable pub items_at : String → Dict (List A) → List A
  unfolding lookup
  items_at k d = get_or (lookup k d) []

  -- d.setdefault(k, []).append(v)
  unfoldable pub add_to : String → A → Dict (List A) → Dict (List A)
  unfolding assign items_at
  add_to k v d = assign k (items_at k d ++ v ∷ []) d

  pub items_at-add_to :
      (k j : String) (v : A) (d : Dict (List A))
      → items_at j (add_to k v d) ≡ (if k == j then items_at j d ++ v ∷ [] else items_at j d)
  unfolding items_at add_to
  items_at-add_to k j v d = elim (Bool-cases (k == j)) [
    | inl y ↦
        rw (lookup-assign k j (get_or (lookup k d) [] ++ v ∷ []) d, y)
          (ap (λ i. get_or (lookup i d) [] ++ v ∷ []) ((eq_iff k j).0 y))
    | inr n ↦ rw (lookup-assign k j (get_or (lookup k d) [] ++ v ∷ []) d, n)
  ]
