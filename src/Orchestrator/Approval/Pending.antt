-- ===== src/Orchestrator/Approval/Pending.antt =====
-- At any time a contract has at most one pending request, whatever is done to the store.
use nexus_ai_team.Prelude.{
  ℕ, ◌≡◌, refl, String, true, false, Option, none, some, List, [], ◌∷◌, All, arith, eq_iff,
}
use nexus_ai_team.Prelude.Text.{nonempty}
use nexus_ai_team.Prelude.Dict.{Dict, lookup, assign, lookup-assign}
use nexus_ai_team.Effects.{Result, ok, err}
use nexus_ai_team.Orchestrator.Approval.{
  ApprovalRequest, pending, is_pending, ApprovalStore, Row, approve, reject, settle, with_request,
  open_id, pending_id, add_request, create_unless, create, approve_in, reject_in,
}

pub record IsIndexed (st : ApprovalStore) : Type 0 where
  -- a request stands under its own id, which is not empty
  pub keyed : (id : String) (r : ApprovalRequest) → lookup id st.store ≡ some r → r.request_id ≡ id
  pub named : (id : String) (r : ApprovalRequest) → lookup id st.store ≡ some r → nonempty id ≡ true
  -- a pending request is the one that its contract's entry names
  pub indexed :
      (id : String) (r : ApprovalRequest)
      → lookup id st.store ≡ some r
      → r.status ≡ pending
      → lookup r.contract_id st.by_contract ≡ some id

module _ (st : ApprovalStore) (inv : IsIndexed st) where
  -- No entry of `r`'s contract names a pending request: then none of its requests is pending.
  no_other :
      (contract id : String) (r : ApprovalRequest)
      → pending_id (lookup contract st.by_contract) st.store ≡ none
      → lookup id st.store ≡ some r
      → r.contract_id ≡ contract
      → r.status ≡ pending
      → ⊥
  unfolding pending_id open_id
  no_other contract id r h there same open_now =
      ground (arith, inv.named id r there, inv.indexed id r there)

  add_request-IsIndexed :
      (r : ApprovalRequest)
      → nonempty r.request_id ≡ true
      → pending_id (lookup r.contract_id st.by_contract) st.store ≡ none
      → IsIndexed (add_request r st)
  unfolding add_request
  add_request-IsIndexed r id_given free = record {
    keyed = λ id q h.
        ground
          (arith, lookup-assign r.request_id id r st.store, eq_iff r.request_id id, inv.keyed id q);
    named = λ id q h.
        ground
          (arith, lookup-assign r.request_id id r st.store, eq_iff r.request_id id, inv.named id q);
    indexed = λ id q h p. ground (
      arith,
      lookup-assign r.request_id id r st.store,
      eq_iff r.request_id id,
      lookup-assign r.contract_id q.contract_id r.request_id st.by_contract,
      eq_iff r.contract_id q.contract_id,
      inv.indexed id q,
      no_other r.contract_id id q,
    );
  }

  create_unless-IsIndexed :
      (r : ApprovalRequest) (p : Option String)
      → nonempty r.request_id ≡ true
      → pending_id (lookup r.contract_id st.by_contract) st.store ≡ p
      → IsIndexed (create_unless r p st).1
  unfolding create_unless
  create_unless-IsIndexed r (some other) id_given e = inv
  create_unless-IsIndexed r none id_given e = add_request-IsIndexed r id_given e

  -- A decision on the request under `id` keeps its id and its contract, and leaves it settled.
  settle-IsIndexed :
      (id : String) (r t : ApprovalRequest) (rows : Dict Row)
      → lookup id st.store ≡ some r
      → t.request_id ≡ r.request_id
      → is_pending t.status ≡ false
      → IsIndexed (record st { store = assign t.request_id t st.store; rows = rows })
  settle-IsIndexed id r t rows there same settled = record {
    keyed = λ j q h.
        ground
          (arith, lookup-assign t.request_id j t st.store, eq_iff t.request_id j, inv.keyed j q);
    named = λ j q h. ground (
      arith,
      lookup-assign t.request_id j t st.store,
      eq_iff t.request_id j,
      inv.named j q,
      inv.keyed id r,
      inv.named id r,
    );
    indexed = λ j q h p.
        ground
          (arith, lookup-assign t.request_id j t st.store, eq_iff t.request_id j, inv.indexed j q);
  }

module _ (st : ApprovalStore) (inv : IsIndexed st) (f : ApprovalRequest → Result ApprovalRequest)
    (decides : (r t : ApprovalRequest)
      → f r ≡ ok t
      → (t.request_id ≡ r.request_id) × (is_pending t.status ≡ false)) where
  settled-IsIndexed :
      (id : String) (r : ApprovalRequest) (d : Result ApprovalRequest)
      → lookup id st.store ≡ some r
      → f r ≡ d
      → IsIndexed (settle d st).1
  unfolding settle
  settled-IsIndexed id r (err e) there h = inv
  settled-IsIndexed id r (ok t) there h =
      let (same, done) = decides r t h in settle-IsIndexed st inv id r t _ there same done

  with_request-IsIndexed :
      (id : String) (o : Option ApprovalRequest)
      → lookup id st.store ≡ o
      → IsIndexed (with_request f o st).1
  unfolding with_request
  with_request-IsIndexed id none h = inv
  with_request-IsIndexed id (some r) h = settled-IsIndexed id r (f r) h refl

approve_decides :
    (by : String) (now : ℕ) (r t : ApprovalRequest)
    → approve by now r ≡ ok t
    → (t.request_id ≡ r.request_id) × (is_pending t.status ≡ false)
unfolding approve
approve_decides by now r t h = ground arith

reject_decides :
    (by notes : String) (now : ℕ) (r t : ApprovalRequest)
    → reject by notes now r ≡ ok t
    → (t.request_id ≡ r.request_id) × (is_pending t.status ≡ false)
unfolding reject
reject_decides by notes now r t h = ground arith

-- The operations on the store that change it.
pub data Operation : Type 0 where
  creates : ApprovalRequest → Operation
  approves : (id by : String) → ℕ → Operation
  rejects : (id by notes : String) → ℕ → Operation

abbrev pub apply : Operation → ApprovalStore → ApprovalStore
apply (creates r) st = (create r st).1
apply (approves id by now) st = (approve_in id by now st).1
apply (rejects id by notes now) st = (reject_in id by notes now st).1

abbrev pub apply_all : List Operation → ApprovalStore → ApprovalStore
apply_all [] st = st
apply_all (o ∷ os) st = apply_all os (apply o st)

-- A request is created under an id that is not empty; `fresh_request` makes no other.
abbrev pub IsNamed : Operation → Type 0
IsNamed (creates r) = nonempty r.request_id ≡ true
IsNamed _ = Unit

pub apply-IsIndexed :
    (o : Operation) (st : ApprovalStore) → IsNamed o → IsIndexed st → IsIndexed (apply o st)
unfolding create approve_in reject_in
apply-IsIndexed (creates r) st named inv = create_unless-IsIndexed st inv r _ named refl
apply-IsIndexed (approves id by now) st named inv =
    with_request-IsIndexed st inv (approve by now) (approve_decides by now) id _ refl
apply-IsIndexed (rejects id by notes now) st named inv =
    with_request-IsIndexed st inv (reject by notes now) (reject_decides by notes now) id _ refl

pub apply_all-IsIndexed :
    (os : List Operation) (st : ApprovalStore)
    → All IsNamed os
    → IsIndexed st
    → IsIndexed (apply_all os st)
apply_all-IsIndexed [] st named inv = inv
apply_all-IsIndexed (o ∷ os) st named inv =
    apply_all-IsIndexed os (apply o st) named.1 (apply-IsIndexed o st named.0 inv)

-- After any sequence of creations under ids that are not empty, approvals and rejections on an
-- indexed store, such as an empty one, two pending requests of one contract are the same one: a
-- contract has at most one.
pub pending_unique :
    (os : List Operation) (st : ApprovalStore) (i j : String) (q r : ApprovalRequest)
    → All IsNamed os
    → IsIndexed st
    → lookup i (apply_all os st).store ≡ some q
    → lookup j (apply_all os st).store ≡ some r
    → q.status ≡ pending
    → r.status ≡ pending
    → q.contract_id ≡ r.contract_id
    → i ≡ j
pending_unique os st i j q r named start at_i at_j q_open r_open same =
    let inv = apply_all-IsIndexed os st named start in
    let first = inv.indexed i q at_i q_open in
    let second = inv.indexed j r at_j r_open in ground arith
