-- ===== src/Orchestrator/Approval/Decisions.antt =====
-- What a decision of one user leaves of the requests.
use nexus_ai_team.Prelude.{
  ℕ, ◌≡◌, refl, ◌∙◌, String, ◌==◌, ◌⊎◌, inl, inr, some, Bool-cases, arith, eq_iff,
}
use nexus_ai_team.Prelude.Dict.{lookup, lookup-assign}
use nexus_ai_team.Effects.{Result, ok, err}
use nexus_ai_team.Orchestrator.Approval.{
  ApprovalRequest, ApprovalStore, approve, reject, approve_in, reject_in, settle, with_request,
}

-- `t` is `q` after what `user` did: unless `user` is the approver, its status is the same.
pub record IsDecidedBy (user : String) (q t : ApprovalRequest) : Type 0 where
  pub request_id : t.request_id ≡ q.request_id
  pub approver : t.approver_id ≡ q.approver_id
  pub decided : (t.status ≡ q.status) ⊎ (q.approver_id ≡ user)

-- Each request of `after` was there before, as it is or decided by its approver.
abbrev pub Decides : String → ApprovalStore → ApprovalStore → Type 0
Decides user before after =
    (j : String) (t : ApprovalRequest)
    → lookup j after.store ≡ some t
    → (q : ApprovalRequest) × (lookup j before.store ≡ some q) × IsDecidedBy user q t

abbrev pub IsKeyed : ApprovalStore → Type 0
IsKeyed st = (j : String) (r : ApprovalRequest) → lookup j st.store ≡ some r → r.request_id ≡ j

pub same_request : (user : String) (q : ApprovalRequest) → IsDecidedBy user q q
same_request user q = record { request_id = refl; approver = refl; decided = inl refl }

pub nothing_decided : (user : String) (st : ApprovalStore) → Decides user st st
nothing_decided user st j t h = (t, h, same_request user t)

pub Decides-IsKeyed :
    (user : String) (before after : ApprovalStore)
    → Decides user before after
    → IsKeyed before
    → IsKeyed after
Decides-IsKeyed user before after d keyed j t h =
    let (q, there, by) = d j t h in by.request_id ∙ keyed j q there

module _ (user : String) (st : ApprovalStore) (keyed : IsKeyed st)
    (f : ApprovalRequest → Result ApprovalRequest)
    (keeps : (r t : ApprovalRequest)
      → f r ≡ ok t
      → (t.request_id ≡ r.request_id) × (t.approver_id ≡ r.approver_id)) where
  settle-Decides :
      (id : String) (r : ApprovalRequest) (d : Result ApprovalRequest)
      → lookup id st.store ≡ some r
      → r.approver_id ≡ user
      → f r ≡ d
      → Decides user st (settle d st).1
  unfolding settle
  settle-Decides id r (err e) there mine h = nothing_decided user st
  settle-Decides id r (ok t) there mine h = λ j u at_j.
      let (same, approver) = keeps r t h in
      let own = keyed id r there in
      elim (Bool-cases (t.request_id == j)) [
        | inl y ↦ (
          r,
          ground (arith, eq_iff t.request_id j, same, own, there),
          ground (arith, y, lookup-assign t.request_id j t st.store, at_j, same, approver, mine),
        )
        | inr n ↦ (
          u,
          ground (arith, n, lookup-assign t.request_id j t st.store, at_j),
          same_request user u,
        )
      ]

  with_request-Decides :
      (id : String) (r : ApprovalRequest)
      → lookup id st.store ≡ some r
      → r.approver_id ≡ user
      → Decides user st (with_request f (lookup id st.store) st).1
  unfolding with_request
  with_request-Decides id r there mine = rw there (settle-Decides id r (f r) there mine refl)

approve_keeps :
    (by : String) (now : ℕ) (r t : ApprovalRequest)
    → approve by now r ≡ ok t
    → (t.request_id ≡ r.request_id) × (t.approver_id ≡ r.approver_id)
unfolding approve
approve_keeps by now r t h = ground arith

reject_keeps :
    (by notes : String) (now : ℕ) (r t : ApprovalRequest)
    → reject by notes now r ≡ ok t
    → (t.request_id ≡ r.request_id) × (t.approver_id ≡ r.approver_id)
unfolding reject
reject_keeps by notes now r t h = ground arith

pub approve_in-Decides :
    (user by id : String) (now : ℕ) (st : ApprovalStore) (r : ApprovalRequest)
    → IsKeyed st
    → lookup id st.store ≡ some r
    → r.approver_id ≡ user
    → Decides user st (approve_in id by now st).1
unfolding approve_in
approve_in-Decides user by id now st r keyed there mine =
    with_request-Decides user st keyed (approve by now) (approve_keeps by now) id r there mine

pub reject_in-Decides :
    (user by notes id : String) (now : ℕ) (st : ApprovalStore) (r : ApprovalRequest)
    → IsKeyed st
    → lookup id st.store ≡ some r
    → r.approver_id ≡ user
    → Decides user st (reject_in id by notes now st).1
unfolding reject_in
reject_in-Decides user by notes id now st r keyed there mine =
    with_request-Decides user st keyed (reject by notes now) (reject_keeps by notes now) id r there
      mine
