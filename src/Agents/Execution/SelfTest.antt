-- ===== src/Agents/Execution/SelfTest.antt =====
-- What a result says of its self-test.
use nexus_ai_team.Prelude.{
  ◌≤◌, ◌≡◌, refl, String, Bool, true, false, ltb, Option, some, get_or, not-ltb→le, arith, [], ◌∷◌,
}
use nexus_ai_team.Prelude.Text.{strip, len_text, upper, contains}
use nexus_ai_team.Effects.Ensures.{Ensures, Ensures-pure, Ensures-bind, Ensures-seq}
use nexus_ai_team.Effects.Yields.{
  Yields, Yields-pure, Yields-if, Yields-catch, Yields→Ensures, yields_rules,
}
use nexus_ai_team.NexusV1.ModelRouter.{Env, RouterResponse}
use nexus_ai_team.NexusV1.ModelRouter.Answers.{IsAnswer, chat-IsAnswer}
use nexus_ai_team.NexusV1.Admin.{Payload, WorkOrder}
use nexus_ai_team.Agents.Execution.{
  ExecutionResult, ExecutionOutput, failed_result, self_test, ask_for_verdict, verification_prompt,
  is_pass, tested_result, attempt, execute,
}

module _ (env : Env Payload) (order : WorkOrder) where
  -- The output has ten characters or more, and the model, asked about it with the verification
  -- prompt of the order, replied with PASS and not with FAIL.
  pub record IsPassed (output : String) : Type 0 where
    pub substantial : 10 ≤ len_text (strip output)
    pub reply : String
    pub answer :
        IsAnswer env
          (record { role = "user"; content = verification_prompt order output } ∷ [])
          reply
    pub says_pass : contains "PASS" (upper (strip reply)) ≡ true
    pub says_no_fail : contains "FAIL" (upper (strip reply)) ≡ false

  -- The result is the order's, by the agent of a role. It is a success exactly when its self-test
  -- passed, and then the model let its output pass.
  pub record IsTested (role : String) (result : ExecutionResult) : Type 0 where
    pub work_order_id : result.work_order_id ≡ order.id
    pub agent_role : result.agent_role ≡ role
    pub tested : result.self_test_passed ≡ result.success
    pub passed : result.success ≡ true → IsPassed result.output

  failed_result-IsTested : (role error : String) → IsTested role (failed_result order role error)
  unfolding failed_result
  failed_result-IsTested role error = record {
    work_order_id = refl;
    agent_role = refl;
    tested = refl;
    passed = λ h. cc;
  }

  Passes : (output : String) → Bool → Type 0
  Passes output passed = passed ≡ true → IsPassed output

  pass_lem :
      (output reply : String)
      → 10 ≤ len_text (strip output)
      → IsAnswer env
          (record { role = "user"; content = verification_prompt order output } ∷ [])
          reply
      → Passes output (is_pass reply)
  unfolding Passes is_pass
  pass_lem output reply long answer h = record {
    substantial = long;
    reply = reply;
    answer = answer;
    says_pass = ground (arith, h);
    says_no_fail = ground (arith, h);
  }

  verdict_lem :
      (output role : String)
      → 10 ≤ len_text (strip output)
      → Ensures (Passes output) (ask_for_verdict env order output role)
  unfolding ask_for_verdict
  verdict_lem output role long =
      Ensures-bind _
        (λ (response : RouterResponse) answer.
          Ensures-pure _ (pass_lem output response.content long answer))
        _ (chat-IsAnswer env (verification_prompt order output) role (some 0) (some 50))

  self_test_lem :
      (made : ExecutionOutput) (role : String)
      → Yields (Passes made.output) (self_test env order made role)
  unfolding self_test Passes
  self_test_lem made role =
      Yields-if (ltb (len_text (strip made.output)) 10) _ _ (λ short. Yields-pure _ (λ h. cc))
        (λ long.
          Yields-catch _ (λ e. Yields-pure _ (λ h. cc)) _
            (verdict_lem made.output role (not-ltb→le _ _ long)))

  attempt-IsTested : (role : String) → Ensures (IsTested role) (attempt env order role)
  unfolding attempt tested_result Passes
  attempt-IsTested role = Ensures-seq _ _ (λ made.
      Ensures-bind _
        (λ passed h.
          Ensures-pure _
            (record { work_order_id = refl; agent_role = refl; tested = refl; passed = h }))
        _ (Yields→Ensures _ (self_test_lem made role)))

  pub execute-IsTested :
      (override_role : Option String)
      → Yields (IsTested (get_or override_role order.owner)) (execute env order override_role)
  unfolding execute
  execute-IsTested override_role = search (yields_rules, failed_result-IsTested, attempt-IsTested)
