-- ===== src/Agents/Execution/Escalation/Climb.antt =====
-- How a work order climbs from its owner up the chain.
use mathlib.Core.List.{append_assoc, append-nil}
use nexus_ai_team.Prelude.{
  ℕ, suc, ◌+◌, ◌≤◌, ◌≡◌, ◌≢◌, refl, sym, ◌∙◌, ap, String, true, false, ◌==◌, ◌⊎◌, inl, inr, nat_eq,
  leb, Option, none, some, List, [], ◌∷◌, ◌++◌, length, length-append, Bool-cases, arith, eq_iff,
  if◌then◌else◌,
}
use nexus_ai_team.Effects.Yields.{Yields, Yields-pure, Yields-if, Yields-bind, Yields-mono}
use nexus_ai_team.NexusV1.ModelRouter.{Env}
use nexus_ai_team.NexusV1.Admin.{Payload, WorkOrder}
use nexus_ai_team.Agents.Execution.{ExecutionResult}
use nexus_ai_team.Agents.Execution.SelfTest.{IsTested, execute-IsTested}
use nexus_ai_team.Agents.Execution.Escalation.{
  success, escalated, failed, needs_board, EscalationResult, chain_from, tail_from,
  needs_clarification, completed, to_board, attempts, execute_with_escalation,
}

module _ (env : Env Payload) (order : WorkOrder) where
  -- A result of the order by the agent of the last role in the chain of attempts.
  pub record IsLast (r : EscalationResult) (result : ExecutionResult) : Type 0 where
    pub role : String
    pub tried_before : List String
    pub chain : r.escalation_chain ≡ tried_before ++ (role ∷ [])
    pub tested : IsTested env order role result

  -- Done at the last attempt, by a result that passed its self-test.
  pub record IsDone (r : EscalationResult) : Type 0 where
    pub result : ExecutionResult
    pub final : r.final_result ≡ some result
    pub passed : result.success ≡ true
    pub last : IsLast r result
    pub status : r.status ≡ (if nat_eq r.attempt_count 1 then success else escalated)
    pub quiet : r.board_notification ≡ none

  -- Given to the board, when the whole chain was tried and its last result is a failure.
  pub record IsGivenUp (r : EscalationResult) : Type 0 where
    pub result : ExecutionResult
    pub final : r.final_result ≡ some result
    pub not_passed : result.success ≡ false
    pub last : IsLast r result
    pub whole : r.escalation_chain ≡ chain_from order.owner
    pub status : r.status ≡ needs_board
    pub notified : r.board_notification ≢ none

  pub record IsAttempted (r : EscalationResult) : Type 0 where
    pub work_order_id : r.work_order_id ≡ order.id
    pub counted : r.attempt_count ≡ length r.escalation_chain
    pub tried : 1 ≤ r.attempt_count
    pub bounded : r.attempt_count ≤ 3
    pub not_tried : List String
    pub climbs : r.escalation_chain ++ not_tried ≡ chain_from order.owner
    pub ends : IsDone r ⊎ IsGivenUp r

  -- An unclear work order goes back to the user without an attempt.
  pub record IsReturned (r : EscalationResult) : Type 0 where
    pub work_order_id : r.work_order_id ≡ order.id
    pub status : r.status ≡ failed
    pub untried : r.attempt_count ≡ 0
    pub asked : r.board_notification ≢ none

  -- Only an unclear work order goes back, and only one that is not is tried.
  abbrev pub IsHandled : EscalationResult → Type 0
  IsHandled r =
      ((order.difficulty ≡ "unclear") × IsReturned r)
      ⊎ ((order.difficulty ≢ "unclear") × IsAttempted r)

-- A start of the chain has at least one role and at most three.
abbrev IsChain : List String → Type 0
IsChain roles = (1 ≤ length roles) × (length roles ≤ 3)

pub chain_from-IsChain : (owner : String) → IsChain (chain_from owner)
unfolding chain_from tail_from
chain_from-IsChain owner = elim (Bool-cases ("intern" == owner)) [
  | inl y ↦ rw (chain_from, y) (omega arith, omega arith)
  | inr n ↦ elim (Bool-cases ("director" == owner)) [
    | inl y ↦ rw (chain_from, n, y) (omega arith, omega arith)
    | inr m ↦ elim (Bool-cases ("ceo" == owner)) [
      | inl y ↦ rw (chain_from, n, m, y) (omega arith, omega arith)
      | inr k ↦ rw (chain_from, n, m, k) (omega arith, omega arith)
    ]
  ]
]

not_equal : (s t : String) → s == t ≡ false → s ≢ t
not_equal s t h e = absurd (ground (arith, h, (eq_iff s t).1 e))

module _ (env : Env Payload) (order : WorkOrder) where
  -- A failure of the last role of a chain.
  record IsFailure (chain : List String) (result : ExecutionResult) : Type 0 where
    role : String
    tried_before : List String
    ends : chain ≡ tried_before ++ (role ∷ [])
    tested : IsTested env order role result
    not_passed : result.success ≡ false

  -- What the loop keeps: the attempts made, and after the first of them a failure to report.
  record IsOn (roles : List String) (count : ℕ) (chain : List String)
      (last : Option ExecutionResult) : Type 0 where
    counted : count ≡ length chain
    onward : chain ++ roles ≡ chain_from order.owner
    failing :
        (count ≡ 0) ⊎ ((result : ExecutionResult) × (last ≡ some result) × IsFailure chain result)

  on-bounded :
      (roles : List String) (count : ℕ) (chain : List String) (last : Option ExecutionResult)
      → IsOn roles count chain last
      → (1 ≤ count + length roles) × (count + length roles ≤ 3)
  on-bounded roles count chain last on =
      let is_chain = chain_from-IsChain order.owner in
      let lengths = sym (length-append chain roles) ∙ ap length on.onward in
      (
        omega (arith, is_chain.0, lengths, on.counted),
        omega (arith, is_chain.1, lengths, on.counted),
      )

  to_board-IsAttempted :
      (count : ℕ) (chain : List String) (last : Option ExecutionResult)
      → IsOn [] count chain last
      → IsAttempted env order (to_board order count chain last)
  unfolding to_board
  to_board-IsAttempted count chain last on =
      let b = on-bounded [] count chain last on in
      record {
        work_order_id = refl;
        counted = on.counted;
        tried = omega (arith, b.0);
        bounded = omega (arith, b.1);
        not_tried = [];
        climbs = on.onward;
        ends = elim on.failing [
          | inl z ↦ absurd (omega (arith, b.0, z))
          | inr f ↦ inr (record {
            result = f.0;
            final = f.1;
            not_passed = f.2.not_passed;
            last = record {
              role = f.2.role;
              tried_before = f.2.tried_before;
              chain = f.2.ends;
              tested = f.2.tested;
            };
            whole = sym (append-nil chain) ∙ on.onward;
            status = refl;
            notified = λ e. cc;
          })
        ];
      }

  completed-IsAttempted :
      (role : String) (roles : List String) (count : ℕ) (chain : List String)
      (last : Option ExecutionResult) (result : ExecutionResult)
      → IsOn (role ∷ roles) count chain last
      → IsTested env order role result
      → result.success ≡ true
      → IsAttempted env order (completed order result (suc count) (chain ++ role ∷ []))
  unfolding completed
  completed-IsAttempted role roles count chain last result on tested passed =
      let b = on-bounded (role ∷ roles) count chain last on in
      record {
        work_order_id = refl;
        counted = rw (length-append chain (role ∷ [])) (omega (arith, on.counted));
        tried = omega arith;
        bounded = omega (arith, b.1);
        not_tried = roles;
        climbs = append_assoc chain (role ∷ []) roles ∙ on.onward;
        ends = inl (record {
          result = result;
          final = refl;
          passed = passed;
          last = record { role = role; tried_before = chain; chain = refl; tested = tested };
          status = refl;
          quiet = refl;
        });
      }

  step-IsOn :
      (role : String) (roles : List String) (count : ℕ) (chain : List String)
      (last : Option ExecutionResult) (result : ExecutionResult)
      → IsOn (role ∷ roles) count chain last
      → IsTested env order role result
      → result.success ≡ false
      → IsOn roles (suc count) (chain ++ role ∷ []) (some result)
  step-IsOn role roles count chain last result on tested h = record {
    counted = rw (length-append chain (role ∷ [])) (omega (arith, on.counted));
    onward = append_assoc chain (role ∷ []) roles ∙ on.onward;
    failing = inr (
      result,
      refl,
      record { role = role; tried_before = chain; ends = refl; tested = tested; not_passed = h },
    );
  }

  attempts-IsAttempted :
      (roles : List String) (count : ℕ) (chain : List String) (last : Option ExecutionResult)
      → IsOn roles count chain last
      → Yields (IsAttempted env order) (attempts env order roles count chain last)
  unfolding attempts
  attempts-IsAttempted [] count chain last on =
      Yields-pure _ (to_board-IsAttempted count chain last on)
  attempts-IsAttempted (role ∷ roles) count chain last on =
      let b = on-bounded (role ∷ roles) count chain last on in
      Yields-if (leb 3 count) _ _ (λ full. absurd (ground (arith, b.1, full)))
        (λ _.
          Yields-bind _
            (λ result tested.
              Yields-if result.success _ _
                (λ passed.
                  Yields-pure _
                    (completed-IsAttempted role roles count chain last result on tested passed))
                (λ failing.
                  attempts-IsAttempted roles (suc count) (chain ++ role ∷ []) (some result)
                    (step-IsOn role roles count chain last result on tested failing)))
            _ (execute-IsTested env order (some role)))

  pub execute_with_escalation_climbs :
      Yields (IsHandled env order) (execute_with_escalation env order)
  unfolding execute_with_escalation needs_clarification
  execute_with_escalation_climbs =
      Yields-if (order.difficulty == "unclear") _ _
        (λ unclear. Yields-pure _ (
          inl (
            (eq_iff order.difficulty "unclear").0 unclear,
            record { work_order_id = refl; status = refl; untried = refl; asked = λ e. cc },
          )))
        (λ clear.
          Yields-mono (λ r h. inr (not_equal order.difficulty "unclear" clear, h)) _
            (attempts-IsAttempted (chain_from order.owner) 0 [] none
              (record { counted = refl; onward = refl; failing = inl refl })))
