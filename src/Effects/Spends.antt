-- ===== src/Effects/Spends.antt =====
-- How much an action may add to a number that the state keeps, one rule for each way to build it.
use nexus_ai_team.Prelude.{ℕ, ◌+◌, ◌≤◌, Bool, true, false, arith, if◌then◌else◌}
use nexus_ai_team.Effects.{
  Error, Result, ok, err, pure, raise, lift, Exec, continue, ◌>>=◌, recover, catch,
}

pub record Spends {S A : Type 0} (meter : S → ℕ) (n : ℕ) (m : Exec S A) : Type 0 where
  pub at : (s : S) → meter (m s).1 ≤ meter s + n

module _ {S : Type 0} (meter : S → ℕ) {A : Type 0} (n : ℕ) where
  pub Spends-pure : (a : A) → Spends meter n (pure a)
  unfolding pure
  Spends-pure a = record { at = λ s. omega arith }

  pub Spends-raise : (e : Error) → Spends meter n (raise {A = A} e)
  unfolding raise
  Spends-raise e = record { at = λ s. omega arith }

  pub Spends-lift : (r : Result A) → Spends meter n (lift r)
  unfolding lift
  Spends-lift r = record { at = λ s. omega arith }

  pub Spends-if :
      (b : Bool) (m k : Exec S A)
      → Spends meter n m
      → Spends meter n k
      → Spends meter n (if b then m else k)
  Spends-if true m k hm hk = hm
  Spends-if false m k hm hk = hk

module _ {S : Type 0} {meter : S → ℕ} {A B : Type 0} (k l : ℕ) (f : A → Exec S B)
    (hf : (a : A) → Spends meter l (f a)) where
  spends_on : (r : Result A × S) → meter (continue f r).1 ≤ meter r.1 + l
  spends_on (ok a, s) = (hf a).at s
  spends_on (err e, s) = omega arith

  pub Spends-bind : (m : Exec S A) → Spends meter k m → Spends meter (k + l) (m >>= f)
  unfolding ◌>>=◌
  Spends-bind m hm = record { at = λ s. omega (arith, spends_on (m s), hm.at s) }

module _ {S : Type 0} {meter : S → ℕ} {A : Type 0} (k l : ℕ) (handler : Error → Exec S A)
    (hh : (e : Error) → Spends meter l (handler e)) where
  spends_recovering : (r : Result A × S) → meter (recover handler r).1 ≤ meter r.1 + l
  unfolding recover
  spends_recovering (ok a, s) = omega arith
  spends_recovering (err e, s) = (hh e).at s

  pub Spends-catch : (m : Exec S A) → Spends meter k m → Spends meter (k + l) (catch m handler)
  unfolding catch
  Spends-catch m hm = record { at = λ s. omega (arith, spends_recovering (m s), hm.at s) }

pub Spends-le :
    {S A : Type 0} {meter : S → ℕ} (k n : ℕ) (m : Exec S A)
    → k ≤ n
    → Spends meter k m
    → Spends meter n m
Spends-le k n m le h = record { at = λ s. omega (arith, le, h.at s) }
