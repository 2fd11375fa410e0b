-- ===== src/Effects/Ensures.antt =====
-- What an action's result satisfies when it returns, one rule for each way to build an action.
use nexus_ai_team.Prelude.{◌≡◌, refl, Bool, true, false, if◌then◌else◌}
use nexus_ai_team.Effects.{Error, Result, ok, err, pure, raise, lift, Exec, continue, ◌>>=◌}

abbrev pub OnOk : {A : Type 0} → (A → Type 0) → Result A → Type 0
OnOk P (ok a) = P a
OnOk P (err e) = Unit

pub record Ensures {S A : Type 0} (P : A → Type 0) (m : Exec S A) : Type 0 where
  pub at : (sys : S) → OnOk P (m sys).0

module _ {S A : Type 0} {P : A → Type 0} where
  pub Ensures-pure : (a : A) → P a → Ensures {S = S} P (pure a)
  unfolding pure
  Ensures-pure a h = record { at = λ sys. h }

  pub Ensures-raise : (e : Error) → Ensures {S = S} P (raise {A = A} e)
  unfolding raise
  Ensures-raise e = record { at = λ sys. tt }

  pub Ensures-lift : (r : Result A) → OnOk P r → Ensures {S = S} P (lift r)
  unfolding lift
  Ensures-lift r h = record { at = λ sys. h }

  pub Ensures-if :
      (b : Bool) (m n : Exec S A)
      → (b ≡ true → Ensures P m)
      → (b ≡ false → Ensures P n)
      → Ensures P (if b then m else n)
  Ensures-if true m n hm hn = hm refl
  Ensures-if false m n hm hn = hn refl

module _ {A : Type 0} {P Q : A → Type 0} (weaker : (a : A) → P a → Q a) where
  OnOk-mono : (r : Result A) → OnOk P r → OnOk Q r
  OnOk-mono (ok a) h = weaker a h
  OnOk-mono (err e) h = tt

  pub Ensures-mono : {S : Type 0} (m : Exec S A) → Ensures P m → Ensures Q m
  Ensures-mono m h = record { at = λ sys. OnOk-mono (m sys).0 (h.at sys) }

module _ {A : Type 0} (P Q : A → Type 0) where
  OnOk-both : (r : Result A) → OnOk P r → OnOk Q r → OnOk (λ a. P a × Q a) r
  OnOk-both (ok a) h k = (h, k)
  OnOk-both (err e) h k = tt

  pub Ensures-both :
      {S : Type 0} (m : Exec S A) → Ensures P m → Ensures Q m → Ensures (λ a. P a × Q a) m
  Ensures-both m h k = record { at = λ sys. OnOk-both (m sys).0 (h.at sys) (k.at sys) }

module _ {S A B : Type 0} {Q : A → Type 0} {P : B → Type 0} (f : A → Exec S B)
    (hf : (a : A) → Q a → Ensures P (f a)) where
  OnOk-continue : (r : Result A × S) → OnOk Q r.0 → OnOk P (continue f r).0
  OnOk-continue (ok a, sys) h = (hf a h).at sys
  OnOk-continue (err e, sys) h = tt

  pub Ensures-bind : (m : Exec S A) → Ensures Q m → Ensures P (m >>= f)
  unfolding ◌>>=◌
  Ensures-bind m hm = record { at = λ sys. OnOk-continue (m sys) (hm.at sys) }

module _ {S A B : Type 0} {P : B → Type 0} (m : Exec S A) (f : A → Exec S B)
    (hf : (a : A) → Ensures P (f a)) where
  OnOk-any : (r : Result A × S) → OnOk P (continue f r).0
  OnOk-any (ok a, sys) = (hf a).at sys
  OnOk-any (err e, sys) = tt

  -- The first action's result may be any.
  pub Ensures-seq : Ensures P (m >>= f)
  unfolding ◌>>=◌
  Ensures-seq = record { at = λ sys. OnOk-any (m sys) }

OnOk-anything : {A : Type 0} (r : Result A) → OnOk (λ _. Unit) r
OnOk-anything (ok a) = tt
OnOk-anything (err e) = tt

pub anything : {S A : Type 0} (m : Exec S A) → Ensures (λ _. Unit) m
anything m = record { at = λ s. OnOk-anything (m s).0 }

pub ruleset ensures_rules = (Ensures-pure, Ensures-raise, Ensures-if, Ensures-seq)
