-- ===== src/NexusV1/Admin.antt =====
-- nexus_v1/admin.py. The matches of the pattern of file names, and what json.loads makes of a text,
-- are answers of `Env`.
pub mod Signals
pub mod Compress
pub mod Orders
pub mod Requests
use Prim.Native.Char.{Char, code}
use nexus_ai_team.Prelude.{
  ℕ, suc, ◌+◌, ◌-◌, nat_eq, String, Bool, true, false, not, ◌==◌, ◌&&◌, ◌||◌, Option, none, some,
  List, [], ◌∷◌, get_or, is_empty, any, if◌then◌else◌,
}
use nexus_ai_team.Prelude.Text.{
  ◌⁀◌, strip, nonempty, lower, take_text, len_text, decimal, rstrip_by, zeros,
}
use nexus_ai_team.Effects.{Error, value_error, pure, raise, lift, catch, ◌>>=◌, ◌>>◌}
use nexus_ai_team.NexusV1.Config.{owner_for_difficulty}
use nexus_ai_team.NexusV1.ModelRouter.{text, Message, Env, Calls, Agent, RouterResponse, chat}
use nexus_ai_team.NexusV1.Admin.Signals.{
  detect_equipment, infer_intent, infer_difficulty, default_qa,
}
use nexus_ai_team.NexusV1.Admin.Compress.{Turn, build_context_block, fallback_compress, take_list}

-- A value of the JSON object of an answer: `shown` is its str(), `truthy` its bool().
pub data Field : Type 0 where
  missing null : Field
  str : String → Field
  items : (shown_items : List String) (shown : String) → Field
  other : (truthy : Bool) (shown : String) → Field

pub record Payload : Type 0 where
  pub difficulty : Field
  pub intent : Field
  pub relevant_files : Field
  pub qa_requirements : Field
  pub clarification_question : Field

is_truthy : Field → Bool
is_truthy missing = false
is_truthy null = false
is_truthy (str s) = nonempty s
is_truthy (items xs shown) = not (is_empty xs)
is_truthy (other truthy shown) = truthy

-- str(payload.get(key, ""))
show : Field → String
show missing = ""
show null = "None"
show (str s) = s
show (items xs shown) = shown
show (other truthy shown) = shown

-- str(payload.get(key) or default).strip()
text_or : Field → String → String
unfolding is_truthy show strip
text_or field default = strip (if is_truthy field then show field else default)

question_of : Field → Option String
unfolding show strip
question_of missing = none
question_of null = none
question_of (str s) = if nonempty s then some (strip s) else none
question_of field = some (strip (show field))

pub record RouteResult : Type 0 where
  pub intent : String
  pub difficulty : String
  pub owner : String
  pub relevant_files : List String
  pub qa_requirements : String
  pub clarification_question : Option String
  pub equipment_name : Option String

pub record WorkOrder : Type 0 where
  pub id : String
  pub intent : String
  pub difficulty : String
  pub owner : String
  pub compressed_context : String
  pub relevant_files : List String
  pub qa_requirements : String
  pub deadline : Option String
  pub clarification_question : Option String
  pub equipment_name : Option String

abbrev pub allowed_difficulty : List String
allowed_difficulty = "trivial" ∷ "normal" ∷ "complex" ∷ "unclear" ∷ []

abbrev pub default_clarification_question : String
default_clarification_question =
    "Please clarify your expected output, constraints, and preferred deliverable format."

from_brace : String → String
from_brace String.[] = ""
from_brace (String.◌∷◌ c s) = if nat_eq (code c) 123 then String.◌∷◌ c s else from_brace s

-- The match of the pattern `\{.*\}` over several lines, or "" if there is none: from the first
-- opening brace to the last closing one.
unfoldable pub object_text : String → String
unfolding from_brace rstrip_by
object_text answer = rstrip_by (λ c. not (nat_eq (code c) 125)) (from_brace answer)

add_unique : String → List String → List String
add_unique item [] = item ∷ []
add_unique item (x ∷ xs) = let rest = add_unique item xs in if x == item then x ∷ xs else x ∷ rest

collect_unique : (found unique : List String) → List String
unfolding add_unique
collect_unique [] unique = unique
collect_unique (item ∷ found) unique = collect_unique found (add_unique item unique)

cleaned : List String → List String
unfolding strip
cleaned [] = []
cleaned (item ∷ rest) =
    let others = cleaned rest in if nonempty (strip item) then strip item ∷ others else others

loaded : Option Payload → Agent Payload
loaded none = raise (value_error "the text is no JSON object")
loaded (some payload) = pure payload

module _ (env : Env Payload) where
  unfoldable pub extract_files : String → List String
  unfolding collect_unique take_list
  extract_files source = take_list 10 (collect_unique (env.findall source) [])

  -- The files of a list, if one of them is not blank.
  listed : List String → String → List String
  unfolding extract_files take_list
  listed [] backup = extract_files backup
  listed (x ∷ xs) backup = take_list 10 (x ∷ xs)

  unfoldable pub normalize_files : Field → (backup_text : String) → List String
  unfolding listed cleaned extract_files
  normalize_files (items xs shown) backup_text = listed (cleaned xs) backup_text
  normalize_files _ backup_text = extract_files backup_text

  parse_json_object : String → Agent Payload
  unfolding object_text loaded
  parse_json_object answer =
      if nonempty (object_text answer)
      then loaded (env.loads (object_text answer))
      else raise (value_error "No JSON object found in model response.")

  -- _classify_with_llm, once the answer is read and its difficulty is known to be allowed.
  unfoldable pub allowed_route :
      Payload → (difficulty user_message compressed_context : String) → Agent RouteResult
  unfolding text_or question_of normalize_files ◌>>=◌
  allowed_route payload difficulty user_message compressed_context =
      let intent = text_or payload.intent (infer_intent user_message) in
      let question = question_of payload.clarification_question in
      lift (owner_for_difficulty difficulty) >>= λ owner. pure (record {
        intent = intent;
        difficulty = difficulty;
        owner = owner;
        relevant_files = normalize_files payload.relevant_files compressed_context;
        qa_requirements = text_or payload.qa_requirements (default_qa intent);
        clarification_question =
            if difficulty == "unclear" && not (nonempty (get_or question ""))
            then some default_clarification_question
            else question;
        equipment_name = detect_equipment user_message;
      })

  route_of_payload : Payload → (user_message compressed_context : String) → Agent RouteResult
  unfolding show strip lower allowed_route
  route_of_payload payload user_message compressed_context =
      let difficulty = lower (strip (show payload.difficulty)) in
      if any (λ d. d == difficulty) allowed_difficulty
      then allowed_route payload difficulty user_message compressed_context
      else raise (value_error ("Invalid difficulty from LLM: " ⁀ difficulty))

  unfoldable pub classify_with_llm : (user_message compressed_context : String) → Agent RouteResult
  unfolding parse_json_object route_of_payload ◌>>=◌
  classify_with_llm user_message compressed_context = do
    response ←
        chat env
          (record {
            role = "system";
            content =
                text (
                  "You are NEXUS Admin router. " ⁀ "Classify requests and output only valid JSON.");
          }
            ∷ record {
              role = "user";
              content = text (
                  "Return strict JSON with keys: "
                  ⁀ "intent, difficulty, relevant_files, qa_requirements, clarification_question.\n"
                  ⁀ "difficulty must be one of: trivial, normal, complex, unclear."
                  ⁀ "\n\nOriginal request:\n" ⁀ user_message ⁀ "\n\nCompressed context:\n"
                  ⁀ compressed_context);
            }
            ∷ [])
          "admin" (some 0) (some 350)
    payload ← parse_json_object response.content
    route_of_payload payload user_message compressed_context

  unfoldable pub classify_with_heuristic :
      (user_message compressed_context : String) → Agent RouteResult
  unfolding lower ◌>>=◌
  classify_with_heuristic user_message compressed_context =
      let intent = infer_intent user_message in
      let difficulty = infer_difficulty (lower user_message) user_message in
      lift (owner_for_difficulty difficulty) >>= λ owner. pure (record {
        intent = intent;
        difficulty = difficulty;
        owner = owner;
        relevant_files = extract_files compressed_context;
        qa_requirements = default_qa intent;
        clarification_question =
            if difficulty == "unclear" then some default_clarification_question else none;
        equipment_name = detect_equipment user_message;
      })

  unfoldable pub classify_request :
      (use_llm : Bool) → (user_message compressed_context : String) → Agent RouteResult
  unfolding strip
  classify_request use_llm user_message compressed_context =
      let source =
        strip (if nonempty compressed_context then compressed_context else user_message) in
      if use_llm
      then catch (classify_with_llm user_message source)
          (λ e. classify_with_heuristic user_message source)
      else classify_with_heuristic user_message source

  compress_with_llm : (context : String) → Agent String
  unfolding strip ◌>>=◌
  compress_with_llm context = do
    response ←
        chat env
          (record {
            role = "system";
            content = text (
                "You are the NEXUS Admin agent.\n"
                ⁀ "Compress the request into a compact work brief under ~1000 tokens.\n"
                ⁀ "Keep: objective, constraints, expected outputs, and file references.\n"
                ⁀ "Do not add facts not present in the request.");
          }
            ∷ record { role = "user"; content = text context }
            ∷ [])
          "admin" (some 10) (some 900)
    pure (strip response.content)

  -- An answer that is empty counts as no answer.
  unfoldable pub compress_message : (use_llm : Bool) → String → List Turn → Agent String
  unfolding compress_with_llm take_text ◌>>=◌
  compress_message use_llm user_message conversation =
      let context = build_context_block user_message conversation in
      if use_llm
      then catch (compress_with_llm context) (λ e. pure "") >>= (λ compressed.
        pure (
          if nonempty compressed
          then take_text 4000 compressed
          else fallback_compress context 4000))
      else pure (fallback_compress context 4000)

  new_work_order_id : Agent String
  unfolding decimal zeros len_text ◌>>=◌
  new_work_order_id s =
      (pure (
          "WO-"
          ⁀ env.day s.clock_reads
          ⁀ "-"
          ⁀ zeros (4 - len_text (decimal s.orders))
          ⁀ decimal s.orders))
        (record s { clock_reads = suc s.clock_reads; orders = suc s.orders })

  order_of : RouteResult → (id compressed_context : String) → Option String → WorkOrder
  order_of route id compressed_context deadline = record {
    id = id;
    intent = route.intent;
    difficulty = route.difficulty;
    owner = route.owner;
    compressed_context = compressed_context;
    relevant_files = route.relevant_files;
    qa_requirements = route.qa_requirements;
    deadline = deadline;
    clarification_question = route.clarification_question;
    equipment_name = route.equipment_name;
  }

  unfoldable pub create_work_order :
      (use_llm : Bool) → String → List Turn → (deadline : Option String) → Agent WorkOrder
  unfolding new_work_order_id order_of ◌>>=◌
  create_work_order use_llm user_message conversation deadline = do
    compressed_context ← compress_message use_llm user_message conversation
    route ← classify_request use_llm user_message compressed_context
    id ← new_work_order_id
    pure (order_of route id compressed_context deadline)
