-- ===== src/Effects/Yields.antt =====
-- What an action returns, one rule for each way to build an action that never raises.
use nexus_ai_team.Prelude.{◌≡◌, refl, Bool, true, false, if◌then◌else◌}
use nexus_ai_team.Effects.{
  Error, Result, ok, err, pure, lift, Exec, continue, ◌>>=◌, recover, catch,
}
use nexus_ai_team.Effects.Ensures.{OnOk, Ensures}

abbrev pub Returned : {A : Type 0} → (A → Type 0) → Result A → Type 0
Returned P (ok a) = P a
Returned P (err e) = ⊥

pub record Yields {S A : Type 0} (P : A → Type 0) (m : Exec S A) : Type 0 where
  pub at : (s : S) → Returned P (m s).0

module _ {S A : Type 0} {P : A → Type 0} where
  pub Yields-pure : (a : A) → P a → Yields {S = S} P (pure a)
  unfolding pure
  Yields-pure a h = record { at = λ s. h }

  pub Yields-lift : (r : Result A) → Returned P r → Yields {S = S} P (lift r)
  unfolding lift
  Yields-lift r h = record { at = λ s. h }

  pub Yields-if :
      (b : Bool) (m n : Exec S A)
      → (b ≡ true → Yields P m)
      → (b ≡ false → Yields P n)
      → Yields P (if b then m else n)
  Yields-if true m n hm hn = hm refl
  Yields-if false m n hm hn = hn refl

module _ {S A B : Type 0} {Q : A → Type 0} {P : B → Type 0} (f : A → Exec S B)
    (hf : (a : A) → Q a → Yields P (f a)) where
  Returned-continue : (r : Result A × S) → Returned Q r.0 → Returned P (continue f r).0
  Returned-continue (ok a, s) h = (hf a h).at s
  Returned-continue (err e, s) h = elim h [ ]

  pub Yields-bind : (m : Exec S A) → Yields Q m → Yields P (m >>= f)
  unfolding ◌>>=◌
  Yields-bind m hm = record { at = λ s. Returned-continue (m s) (hm.at s) }

module _ {S A : Type 0} {P : A → Type 0} (handler : Error → Exec S A)
    (hh : (e : Error) → Yields P (handler e)) where
  Returned-recover : (r : Result A × S) → OnOk P r.0 → Returned P (recover handler r).0
  unfolding recover
  Returned-recover (ok a, s) h = h
  Returned-recover (err e, s) h = (hh e).at s

  -- What is caught need not return.
  pub Yields-catch : (m : Exec S A) → Ensures P m → Yields P (catch m handler)
  unfolding catch
  Yields-catch m hm = record { at = λ s. Returned-recover (m s) (hm.at s) }

Returned→OnOk : {A : Type 0} (P : A → Type 0) (r : Result A) → Returned P r → OnOk P r
Returned→OnOk P (ok a) h = h
Returned→OnOk P (err e) h = tt

pub Yields→Ensures : {S A : Type 0} {P : A → Type 0} (m : Exec S A) → Yields P m → Ensures P m
Yields→Ensures {P = P} m h = record { at = λ s. Returned→OnOk P (m s).0 (h.at s) }

module _ {A : Type 0} {P Q : A → Type 0} (weaker : (a : A) → P a → Q a) where
  Returned-mono : (r : Result A) → Returned P r → Returned Q r
  Returned-mono (ok a) h = weaker a h
  Returned-mono (err e) h = elim h [ ]

  pub Yields-mono : {S : Type 0} (m : Exec S A) → Yields P m → Yields Q m
  Yields-mono m h = record { at = λ s. Returned-mono (m s).0 (h.at s) }

pub ruleset yields_rules = (Yields-pure, Yields-if, Yields-catch)
