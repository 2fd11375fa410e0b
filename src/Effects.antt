-- ===== src/Effects.antt =====
-- Functions that read and write the surroundings and may raise: what was done before a raise stays
-- done, so the state comes back beside the error too.
pub mod Ensures
pub mod Yields
pub mod Spends
use nexus_ai_team.Prelude.{String}

-- Python's exceptions, with the text or the key that they carry.
pub data Error : Type 0 where
  permission_error : String → String → Error
  value_error runtime_error key_error os_error : String → Error
  -- LangGraph's `interrupt`: the graph stops here and waits for the request to be answered.
  graph_interrupt : String → Error

pub data Result {ℓ} (A : Type ℓ) : Type ℓ where
  ok : A → Result A
  err : Error → Result A

abbrev pub Exec {ℓ} : Type ℓ → Type ℓ → Type ℓ
Exec S A = S → Result A × S

module _ {ℓ} {S A : Type ℓ} where
  unfoldable pub pure : A → Exec S A
  pure a s = (ok a, s)

  unfoldable pub raise : Error → Exec S A
  raise e s = (err e, s)

  unfoldable pub lift : Result A → Exec S A
  lift r s = (r, s)

module _ {ℓ} {S A B : Type ℓ} where
  abbrev pub continue : (A → Exec S B) → Result A × S → Result B × S
  continue f (ok a, s) = f a s
  continue f (err e, s) = (err e, s)

  infixl 5 ◌>>=◌ ◌>>◌
  -- To unfold this is to unfold `pure`, `raise` and `lift` too.
  unfoldable pub ◌>>=◌ : Exec S A → (A → Exec S B) → Exec S B
  unfolding pure raise lift
  ◌>>=◌ m f s = continue f (m s)

  abbrev pub ◌>>◌ : Exec S A → Exec S B → Exec S B
  m >> n = m >>= λ _. n

module _ {ℓ} {S A : Type ℓ} where
  recover : (Error → Exec S A) → Result A × S → Result A × S
  recover handler (ok a, s) = (ok a, s)
  recover handler (err e, s) = handler e s

  -- try: … except Exception: …
  unfoldable pub catch : Exec S A → (Error → Exec S A) → Exec S A
  unfolding recover
  catch m handler s = recover handler (m s)
