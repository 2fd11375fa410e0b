-- ===== src/Orchestrator/Graph/Interrupts.antt =====
-- A graph that is compiled without interrupts does not pause.
use nexus_ai_team.Prelude.{ℕ, zero, suc, ◌≡◌, refl, Bool, false, Option, none}
use nexus_ai_team.Effects.{Result, ok, err}
use nexus_ai_team.Orchestrator.State.{State}
use nexus_ai_team.Orchestrator.System.{World, System}
use nexus_ai_team.Orchestrator.Nodes.Ceo.{HumanResponse}
use nexus_ai_team.Orchestrator.Graph.{
  Node, ceo_approve, Target, node, end, Outcome, finished, raised, paused, out_of_steps, next,
  execute, no_interrupts, arrive, after, run,
}

abbrev pub IsUnpaused : Outcome → Type 0
IsUnpaused (paused n t sys) = ⊥
IsUnpaused (finished t sys) = Unit
IsUnpaused (raised e t sys) = Unit
IsUnpaused (out_of_steps n t sys) = Unit

pub no_interrupts-false : (n : Node) → no_interrupts n ≡ false
unfolding no_interrupts
no_interrupts-false ceo_approve = refl
no_interrupts-false _ = refl

module _ (waits : Node → Bool) (never : (n : Node) → waits n ≡ false)
    (go : Node → State → System → Outcome)
    (unpaused : (n : Node) (s : State) (sys : System) → IsUnpaused (go n s sys)) where
  arrive-IsUnpaused :
      (before t : State) (sys : System) (r : Result Target)
      → IsUnpaused (arrive waits go before t sys r)
  unfolding arrive
  arrive-IsUnpaused before t sys (err e) = tt
  arrive-IsUnpaused before t sys (ok end) = tt
  arrive-IsUnpaused before t sys (ok (node n)) = rw (never n) (unpaused n t sys)

  after-IsUnpaused :
      (n : Node) (s : State) (r : Result State × System) → IsUnpaused (after waits go n s r)
  unfolding after
  after-IsUnpaused n s (ok t, sys) = arrive-IsUnpaused s t sys (next n t)
  after-IsUnpaused n s (err e, sys) = tt

pub run-IsUnpaused :
    (w : World) (waits : Node → Bool) (limit : ℕ) (resume : Option HumanResponse) (n : Node)
    (s : State) (sys : System)
    → ((m : Node) → waits m ≡ false)
    → IsUnpaused (run w waits resume limit n s sys)
unfolding run
run-IsUnpaused w waits zero resume n s sys never = tt
run-IsUnpaused w waits (suc limit) resume n s sys never =
    after-IsUnpaused waits never (run w waits none limit)
      (λ m t u. run-IsUnpaused w waits limit none m t u never) n s (execute w resume n s sys)
