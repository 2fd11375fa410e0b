-- ===== src/Orchestrator/Approval/Lifecycle.antt =====
-- The life of one request: pending, and then settled once.
use nexus_ai_team.Prelude.{ℕ, ◌≡◌, String, true, false, some, arith, ◌⊎◌, inl, inr}
use nexus_ai_team.Prelude.Text.{strip, nonempty}
use nexus_ai_team.Effects.{Result, ok, err}
use nexus_ai_team.Orchestrator.Approval.{
  ApprovalRequest, ApprovalStatus, pending, approved, rejected, is_pending, approve, reject,
}

-- `r` was pending, and `t` is `r` with the decision.
pub record Settles (r t : ApprovalRequest) (status : ApprovalStatus) (by : String) (now : ℕ)
    : Type 0 where
  pub was_pending : r.status ≡ pending
  pub settled : t.status ≡ status
  pub request_id : t.request_id ≡ r.request_id
  pub contract_id : t.contract_id ≡ r.contract_id
  pub resolved_at : t.resolved_at ≡ some now
  pub resolved_by : t.resolved_by ≡ by

-- A request that `approve` returns was pending and is approved, with its notes as they were.
pub approve-Settles :
    (by : String) (now : ℕ) (r t : ApprovalRequest)
    → approve by now r ≡ ok t
    → Settles r t approved by now × (t.rejection_notes ≡ r.rejection_notes)
unfolding approve
approve-Settles by now r t h = ground arith

-- A request that `reject` returns was pending and is rejected, with the given notes stripped,
-- which are not blank.
pub reject-Settles :
    (by notes : String) (now : ℕ) (r t : ApprovalRequest)
    → reject by notes now r ≡ ok t
    → Settles r t rejected by now
      × (t.rejection_notes ≡ strip notes)
      × (nonempty (strip notes) ≡ true)
unfolding reject
reject-Settles by notes now r t h = ground arith

abbrev pub IsError : {A : Type 0} → Result A → Type 0
IsError (ok a) = ⊥
IsError (err e) = Unit

settled_refuses :
    (t : ApprovalRequest) (by notes : String) (now : ℕ)
    → is_pending t.status ≡ false
    → IsError (approve by now t) × IsError (reject by notes now t)
unfolding approve reject
settled_refuses t by notes now h = rw h (tt, tt)

-- A request is decided once: if `approve` or `reject` returns `t`, then the request was pending,
-- and every later `approve` and `reject` of `t` raises, by whomever and at whatever time. If
-- `t` is rejected, the given notes were not blank, and `t` has them stripped.
pub decided_once :
    (r t : ApprovalRequest) (by notes by' notes' : String) (now now' : ℕ)
    → (approve by now r ≡ ok t) ⊎ (reject by notes now r ≡ ok t)
    → (r.status ≡ pending)
      × (IsError (approve by' now' t))
      × (IsError (reject by' notes' now' t))
      × (t.status ≡ rejected → (nonempty (strip notes) ≡ true) × (t.rejection_notes ≡ strip notes))
decided_once r t by notes by' notes' now now' (inl h) =
    let (s, n) = approve-Settles by now r t h in
    let (a, b) = settled_refuses t by' notes' now' (ground arith) in
    (s.was_pending, a, b, λ e. absurd (ground (arith, e, s.settled)))
decided_once r t by notes by' notes' now now' (inr h) =
    let (s, n, full) = reject-Settles by notes now r t h in
    let (a, b) = settled_refuses t by' notes' now' (ground arith) in
    (s.was_pending, a, b, λ e. (full, n))
