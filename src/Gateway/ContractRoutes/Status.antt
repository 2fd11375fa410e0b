-- ===== src/Gateway/ContractRoutes/Status.antt =====
-- What the status of a contract says of its run.
use nexus_ai_team.Prelude.{
  ℕ, ◌≤◌, ◌≡◌, refl, String, true, false, ◌==◌, ◌⊎◌, inl, inr, none, some, arith, eq_iff,
}
use nexus_ai_team.Prelude.Dict.{lookup, lookup-assign}
use nexus_ai_team.Effects.{
  permission_error, value_error, runtime_error, key_error, os_error, graph_interrupt,
}
use nexus_ai_team.Orchestrator.State.{State}
use nexus_ai_team.Orchestrator.System.{World, System}
use nexus_ai_team.Orchestrator.Graph.{
  ceo_dispatch, Outcome, finished, raised, paused, out_of_steps, no_interrupts, run,
}
use nexus_ai_team.Orchestrator.Graph.Interrupts.{IsUnpaused, no_interrupts-false, run-IsUnpaused}
use nexus_ai_team.Orchestrator.Graph.Completion.{
  IsCompleted, IsEscalated, IsRefused, Settles, run-Settles,
}
use nexus_ai_team.Gateway.ContractRoutes.{
  ContractRequest, is_valid, node_failed, ContractInfo, Contracts, initial_state, update_found,
  update, set_status, status_of, conclude, fail, after_error, after_run, run_graph_sync,
  cancel_found, cancel_contract, is_over,
}

lookup-update :
    (id : String) (f : ContractInfo → ContractInfo) (info : ContractInfo) (contracts : Contracts)
    → lookup id contracts ≡ some info
    → lookup id (update id f contracts) ≡ some (f info)
unfolding update update_found
lookup-update id f info contracts there =
    rw there (ground (arith, eq_iff id id, lookup-assign id id (f info) contracts))

-- What the entry of a contract says of the outcome of its run: a status other than an error names
-- the way in which the contract was settled, or the run waits for a human.
abbrev pub Reports : Outcome → ContractInfo → Type 0
Reports (finished t sys) info =
    (info.final_state ≡ some t)
    × (((info.status ≡ "completed") × IsCompleted t)
        ⊎ (((info.status ≡ "escalated") × IsEscalated t)
            ⊎ ((info.status ≡ "in_progress") × IsRefused t)))
Reports (raised (graph_interrupt request_id) t sys) info = info.final_state ≡ some t
Reports (raised e t sys) info = (info.status ≡ "error") × (info.error ≡ some (node_failed e))
Reports (paused n t sys) info = ⊥
Reports (out_of_steps n t sys) info = ⊥

after_run-Reports :
    (o : Outcome) (info : ContractInfo) → Settles o → IsUnpaused o → Reports o (after_run o info)
unfolding after_run after_error conclude fail status_of
after_run-Reports (finished t sys) info (inl c) u = (refl, inl (rw c.approved refl, c))
after_run-Reports (finished t sys) info (inr (inl e)) u =
    (refl, inr (inl (rw (e.not_approved, e.escalated) refl, e)))
after_run-Reports (finished t sys) info (inr (inr r)) u =
    (refl, inr (inr (rw (r.not_approved, r.not_escalated) refl, r)))
after_run-Reports (raised (graph_interrupt request_id) t sys) info h u = refl
after_run-Reports (raised (permission_error a b) t sys) info h u = (refl, refl)
after_run-Reports (raised (value_error a) t sys) info h u = (refl, refl)
after_run-Reports (raised (runtime_error a) t sys) info h u = (refl, refl)
after_run-Reports (raised (key_error a) t sys) info h u = (refl, refl)
after_run-Reports (raised (os_error a) t sys) info h u = (refl, refl)
after_run-Reports (paused n t sys) info h u = u
after_run-Reports (out_of_steps n t sys) info h u = h

valid-max_attempts : (req : ContractRequest) → is_valid req ≡ true → req.max_attempts ≤ 10
unfolding is_valid
valid-max_attempts req h = ground arith

-- A valid request's contract, tracked and run with at least 54 steps to go: afterwards its entry
-- reports the outcome of the run. The steps never run out. A "completed" contract was approved by
-- the CEO after QA passed it, an "escalated" one was escalated, and a finished one that still says
-- "in_progress" was refused by the CEO with every attempt used. An exception is an "error".
pub run_graph_sync-Reports :
    (w : World) (limit : ℕ) (id : String) (req : ContractRequest) (sys : System)
    (contracts : Contracts) (old : ContractInfo)
    → is_valid req ≡ true
    → 54 ≤ limit
    → lookup id contracts ≡ some old
    → (info : ContractInfo) × (lookup id
          (run_graph_sync w limit id (initial_state id req) sys contracts)
        ≡ some info)
      × Reports (run w no_interrupts none limit ceo_dispatch (initial_state id req) sys) info
unfolding run_graph_sync
run_graph_sync-Reports w limit id req sys contracts old valid enough there =
    let s = initial_state id req in
    let few = valid-max_attempts req valid in
    (
      _,
      lookup-update id _ old contracts there,
      after_run-Reports _ _
          (run-Settles w no_interrupts limit none ceo_dispatch s sys (refl, refl) (omega arith))
          (run-IsUnpaused w no_interrupts limit none ceo_dispatch s sys no_interrupts-false),
    )

-- Not over: none of the statuses that a cancellation leaves as they are.
abbrev pub IsOpen : String → Type 0
IsOpen status =
    (status == "completed" ≡ false) × (status == "error" ≡ false) × (status == "cancelled" ≡ false)

abbrev pub IsLive : String → Type 0
IsLive status =
    (status ≡ "completed")
    ⊎ ((status ≡ "escalated") ⊎ ((status ≡ "in_progress") ⊎ (status ≡ "error")))

status_of-IsLive : (t : State) → IsLive (status_of t)
unfolding status_of
status_of-IsLive t = ground arith

after_run-IsLive : (o : Outcome) (info : ContractInfo) → IsLive (after_run o info).status
unfolding after_run after_error conclude fail
after_run-IsLive (finished t sys) info = status_of-IsLive t
after_run-IsLive (raised (graph_interrupt request_id) t sys) info = status_of-IsLive t
after_run-IsLive (raised (permission_error a b) t sys) info = inr (inr (inr refl))
after_run-IsLive (raised (value_error a) t sys) info = inr (inr (inr refl))
after_run-IsLive (raised (runtime_error a) t sys) info = inr (inr (inr refl))
after_run-IsLive (raised (key_error a) t sys) info = inr (inr (inr refl))
after_run-IsLive (raised (os_error a) t sys) info = inr (inr (inr refl))
after_run-IsLive (paused n t sys) info = status_of-IsLive t
after_run-IsLive (out_of_steps n t sys) info = inr (inr (inr refl))

still_open : (status : String) → IsOpen status → is_over status ≡ false
unfolding is_over
still_open status (a, b, c) = rw (a, b, c) refl

-- The cancellation is answered with success, and stored.
abbrev pub IsCancelled : (id : String) → Contracts → ContractInfo → Type 0
IsCancelled id contracts old =
    ((cancel_contract id contracts).0 ≡ 200)
    × (lookup id (cancel_contract id contracts).1 ≡ some (set_status "cancelled" old))

-- The run leaves the entry that it would have left without the cancellation.
pub record RunsAnyway (w : World) (limit : ℕ) (id : String) (s : State) (sys : System)
    (contracts : Contracts) : Type 0 where
  pub info : ContractInfo
  pub cancelled :
      lookup id (run_graph_sync w limit id s sys (cancel_contract id contracts).1) ≡ some info
  pub uncancelled : lookup id (run_graph_sync w limit id s sys contracts) ≡ some info
  pub live : IsLive info.status

cancel-IsCancelled :
    (id : String) (contracts : Contracts) (old : ContractInfo)
    → lookup id contracts ≡ some old
    → is_over old.status ≡ false
    → IsCancelled id contracts old
unfolding cancel_contract cancel_found
cancel-IsCancelled id contracts old there open_now =
    rw (there, open_now) (refl, lookup-update id (set_status "cancelled") old contracts there)

-- A cancellation does not last: when a tracked contract whose status is not "completed", "error" or
-- "cancelled" is cancelled, the answer is 200 and the status "cancelled" is stored. A run after it
-- takes place all the same: it leaves the very entry that it would have left without the
-- cancellation, with the status "completed", "escalated", "in_progress" or "error".
pub cancel_contract-RunsAnyway :
    (w : World) (limit : ℕ) (id : String) (s : State) (sys : System) (contracts : Contracts)
    (old : ContractInfo)
    → lookup id contracts ≡ some old
    → IsOpen old.status
    → IsCancelled id contracts old × RunsAnyway w limit id s sys contracts
unfolding run_graph_sync
cancel_contract-RunsAnyway w limit id s sys contracts old there open_now =
    let stored = cancel-IsCancelled id contracts old there (still_open old.status open_now) in
    (
      stored,
      record {
        info = _;
        cancelled = lookup-update id _ (set_status "cancelled" old) _ stored.1;
        uncancelled = lookup-update id _ old contracts there;
        live = after_run-IsLive _ _;
      },
    )
