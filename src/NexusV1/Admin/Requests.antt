-- ===== src/NexusV1/Admin/Requests.antt =====
-- How often the admin agent asks the models.
use nexus_ai_team.Prelude.{String, Bool, true, false, Option, none, some, List, arith}
use nexus_ai_team.Effects.Spends.{
  Spends-pure, Spends-raise, Spends-lift, Spends-if, Spends-bind, Spends-catch,
}
use nexus_ai_team.NexusV1.ModelRouter.{Env}
use nexus_ai_team.NexusV1.ModelRouter.Requests.{requests, Asks, chat-Asks}
use nexus_ai_team.NexusV1.Admin.Compress.{Turn}
use nexus_ai_team.NexusV1.Admin.{
  Payload, parse_json_object, loaded, object_text, route_of_payload, allowed_route,
  classify_with_llm, classify_with_heuristic, classify_request, compress_with_llm, compress_message,
  new_work_order_id, order_of, create_work_order,
}

loaded-Asks : (o : Option Payload) → Asks 0 (loaded o)
unfolding loaded
loaded-Asks none = Spends-raise requests 0 _
loaded-Asks (some payload) = Spends-pure requests 0 payload

module _ (env : Env Payload) where
  parse-Asks : (answer : String) → Asks 0 (parse_json_object env answer)
  unfolding parse_json_object
  parse-Asks answer =
      Spends-if requests 0 _ _ _ (loaded-Asks (env.loads (object_text answer)))
        (Spends-raise requests 0 _)

  route-Asks :
      (payload : Payload) (user_message context : String)
      → Asks 0 (route_of_payload env payload user_message context)
  unfolding route_of_payload allowed_route
  route-Asks payload user_message context =
      Spends-if requests 0 _ _ _
        (Spends-bind 0 0 _ (λ owner. Spends-pure requests 0 _) _ (Spends-lift requests 0 _))
        (Spends-raise requests 0 _)

  heuristic-Asks :
      (user_message context : String) → Asks 0 (classify_with_heuristic env user_message context)
  unfolding classify_with_heuristic
  heuristic-Asks user_message context =
      Spends-bind 0 0 _ (λ owner. Spends-pure requests 0 _) _ (Spends-lift requests 0 _)

  llm-Asks : (user_message context : String) → Asks 1 (classify_with_llm env user_message context)
  unfolding classify_with_llm
  llm-Asks user_message context =
      Spends-bind 1 0 _
        (λ response.
          Spends-bind 0 0 _ (λ payload. route-Asks payload user_message context) _
            (parse-Asks response.content))
        _ (chat-Asks env _ _ _ _)

  classify-Asks :
      (use_llm : Bool) (user_message context : String)
      → Asks 1 (classify_request env use_llm user_message context)
  unfolding classify_request
  classify-Asks true user_message context =
      Spends-catch 1 0 _ (λ e. heuristic-Asks _ _) _ (llm-Asks _ _)
  classify-Asks false user_message context = record {
    at = λ s. omega (arith, (heuristic-Asks _ _).at s);
  }

  compress-Asks :
      (use_llm : Bool) (user_message : String) (conversation : List Turn)
      → Asks 1 (compress_message env use_llm user_message conversation)
  unfolding compress_message compress_with_llm
  compress-Asks true user_message conversation =
      Spends-bind 1 0 _ (λ compressed. Spends-pure requests 0 _) _
        (Spends-catch 1 0 _ (λ e. Spends-pure requests 0 _) _
          (Spends-bind 1 0 _ (λ response. Spends-pure requests 0 _) _ (chat-Asks env _ _ _ _)))
  compress-Asks false user_message conversation = Spends-pure requests 1 _

  id-Asks : Asks 0 (new_work_order_id env)
  unfolding new_work_order_id
  id-Asks = record { at = λ s. omega arith }

  pub create_work_order-Asks :
      (use_llm : Bool) (user_message : String) (conversation : List Turn) (deadline : Option String)
      → Asks 2 (create_work_order env use_llm user_message conversation deadline)
  unfolding create_work_order
  create_work_order-Asks use_llm user_message conversation deadline =
      Spends-bind 1 1 _
        (λ context.
          Spends-bind 1 0 _
            (λ route.
              Spends-bind 0 0 _
                (λ id. Spends-pure requests 0 (order_of env route id context deadline)) _ id-Asks)
            _ (classify-Asks use_llm user_message context))
        _ (compress-Asks use_llm user_message conversation)
