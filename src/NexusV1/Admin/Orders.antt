-- ===== src/NexusV1/Admin/Orders.antt =====
-- What every work order of the admin agent satisfies.
use nexus_ai_team.Prelude.{
  ℕ, zero, suc, ◌+◌, ◌-◌, ◌/◌, ◌≤◌, ◌≡◌, refl, String, Bool, true, false, not, ◌&&◌, ◌==◌, inl, inr,
  Option, none, some, List, [], ◌∷◌, length, get_or, leb, Bool-cases, arith, if◌then◌else◌,
}
use nexus_ai_team.Prelude.Text.{◌⁀◌, nonempty, lower, take_text, drop_text, len_text}
use text.Mathlib.TextLemmas.{cons-append, nil-append}
use nexus_ai_team.Effects.{Result, ok, err, pure, lift, ◌>>=◌}
use nexus_ai_team.Effects.Ensures.{
  OnOk, Ensures, Ensures-pure, Ensures-lift, Ensures-bind, anything, ensures_rules,
}
use nexus_ai_team.Effects.Yields.{
  Returned, Yields, Yields-pure, Yields-lift, Yields-bind, Yields-catch,
}
use nexus_ai_team.NexusV1.Config.{owner_for_difficulty}
use nexus_ai_team.NexusV1.ModelRouter.{Env, Calls}
use nexus_ai_team.NexusV1.Admin.Signals.{infer_difficulty}
use nexus_ai_team.NexusV1.Admin.Compress.{Turn, take_list, shorten, fallback_compress}
use nexus_ai_team.NexusV1.Admin.{
  missing, null, str, items, other, allowed_route, Payload, RouteResult, WorkOrder,
  default_clarification_question, classify_with_llm, classify_with_heuristic, classify_request,
  compress_message, create_work_order, extract_files, normalize_files, order_of, new_work_order_id,
  route_of_payload, listed, question_of,
}

len_text-append : (s t : String) → len_text (s ⁀ t) ≡ len_text s + len_text t
unfolding len_text
len_text-append String.[] t = rw (nil-append t) (omega arith)
len_text-append (String.◌∷◌ c s) t = rw (cons-append c s t) (omega (arith, len_text-append s t))

len_text-take_text : (n : ℕ) (s : String) → len_text (take_text n s) ≤ n
unfolding len_text take_text
len_text-take_text zero s = omega arith
len_text-take_text (suc n) String.[] = omega arith
len_text-take_text (suc n) (String.◌∷◌ c s) = omega (arith, len_text-take_text n s)

len_text-drop_text : (n : ℕ) (s : String) → len_text (drop_text n s) ≡ len_text s - n
unfolding len_text drop_text
len_text-drop_text zero s = omega arith
len_text-drop_text (suc n) String.[] = omega arith
len_text-drop_text (suc n) (String.◌∷◌ c s) = omega (arith, len_text-drop_text n s)

length-take_list : {A : Type 0} (n : ℕ) (xs : List A) → length (take_list n xs) ≤ n
unfolding take_list
length-take_list zero xs = omega arith
length-take_list (suc n) [] = omega arith
length-take_list (suc n) (x ∷ xs) = omega (arith, length-take_list n xs)

shorten-bound :
    (s : String) (max_chars : ℕ) → 48 ≤ max_chars → len_text (shorten s max_chars) ≤ max_chars
unfolding shorten
shorten-bound s max_chars h = elim (Bool-cases (leb (len_text s) max_chars)) [
  | inl y ↦ rw y (ground arith)
  | inr n ↦
      rw (n, len_text-append, len_text-append)
        (ground (
          arith,
          len_text-take_text (max_chars / 2 - 24) s,
          len_text-drop_text (len_text s - (max_chars - (max_chars / 2 - 24) - 24)) s,
        ))
]

fallback_compress-bound :
    (s : String) (max_chars : ℕ)
    → 48 ≤ max_chars
    → len_text (fallback_compress s max_chars) ≤ max_chars
unfolding fallback_compress
fallback_compress-bound s max_chars h = shorten-bound _ max_chars h

-- The owner is the one of the difficulty, an unclear request carries a question, and there are at
-- most ten files.
pub record IsRoutable (route : RouteResult) : Type 0 where
  pub owned : owner_for_difficulty route.difficulty ≡ ok route.owner
  pub asks : route.difficulty ≡ "unclear" → nonempty (get_or route.clarification_question "") ≡ true
  pub few_files : length route.relevant_files ≤ 10

itself : {A : Type 0} (r : Result A) → OnOk (λ a. r ≡ ok a) r
itself (ok a) = refl
itself (err e) = tt

owned_by :
    {P : RouteResult → Type 0} (difficulty : String) (f : String → RouteResult)
    → ((owner : String) → owner_for_difficulty difficulty ≡ ok owner → P (f owner))
    → Ensures {S = Calls} P (lift (owner_for_difficulty difficulty) >>= λ owner. pure (f owner))
owned_by difficulty f h =
    Ensures-bind {Q = λ owner. owner_for_difficulty difficulty ≡ ok owner} _
      (λ owner e. Ensures-pure _ (h owner e)) _
      (Ensures-lift _ (itself (owner_for_difficulty difficulty)))

question_asks :
    (difficulty : String) (question : Option String)
    → difficulty ≡ "unclear"
    → nonempty (
        get_or
          (if difficulty == "unclear" && not (nonempty (get_or question ""))
            then some default_clarification_question
            else question)
          "")
      ≡ true
question_asks difficulty question e = elim (Bool-cases (nonempty (get_or question ""))) [
  | inl y ↦ rw (e, y) y
  | inr n ↦ rw (e, n) refl
]

IsOwned : String → Type 0
IsOwned difficulty =
    Returned (λ owner. owner_for_difficulty difficulty ≡ ok owner) (owner_for_difficulty difficulty)

either_IsOwned : (b : Bool) (x y : String) → IsOwned x → IsOwned y → IsOwned (if b then x else y)
either_IsOwned true x y hx hy = hx
either_IsOwned false x y hx hy = hy

trivial-IsOwned : IsOwned "trivial"
unfolding IsOwned owner_for_difficulty
trivial-IsOwned = refl

normal-IsOwned : IsOwned "normal"
unfolding IsOwned owner_for_difficulty
normal-IsOwned = refl

complex-IsOwned : IsOwned "complex"
unfolding IsOwned owner_for_difficulty
complex-IsOwned = refl

unclear-IsOwned : IsOwned "unclear"
unfolding IsOwned owner_for_difficulty
unclear-IsOwned = refl

infer_difficulty-IsOwned : (lowered raw_text : String) → IsOwned (infer_difficulty lowered raw_text)
unfolding infer_difficulty
infer_difficulty-IsOwned lowered raw_text =
    search (either_IsOwned, trivial-IsOwned, normal-IsOwned, complex-IsOwned, unclear-IsOwned)

owned_return :
    {P : RouteResult → Type 0} (difficulty : String) (f : String → RouteResult)
    → IsOwned difficulty
    → ((owner : String) → owner_for_difficulty difficulty ≡ ok owner → P (f owner))
    → Yields {S = Calls} P (lift (owner_for_difficulty difficulty) >>= λ owner. pure (f owner))
unfolding IsOwned
owned_return difficulty f known h =
    Yields-bind {Q = λ owner. owner_for_difficulty difficulty ≡ ok owner} _
      (λ owner e. Yields-pure _ (h owner e)) _ (Yields-lift _ known)

asked :
    (difficulty : String)
    → difficulty ≡ "unclear"
    → nonempty
        (get_or (if difficulty == "unclear" then some default_clarification_question else none) "")
      ≡ true
asked difficulty e = rw e refl

abbrev IsShort : String → Type 0
IsShort s = len_text s ≤ 4000

compressed-IsShort :
    (compressed context : String)
    → IsShort
        (if nonempty compressed then take_text 4000 compressed else fallback_compress context 4000)
compressed-IsShort compressed context = elim (Bool-cases (nonempty compressed)) [
  | inl y ↦ rw y (len_text-take_text 4000 compressed)
  | inr n ↦ rw n (fallback_compress-bound context 4000 (omega arith))
]

module _ (env : Env Payload) where
  extract_files-bound : (s : String) → length (extract_files env s) ≤ 10
  unfolding extract_files
  extract_files-bound s = length-take_list 10 _

  listed-bound : (xs : List String) (s : String) → length (listed env xs s) ≤ 10
  unfolding listed
  listed-bound [] s = extract_files-bound s
  listed-bound (x ∷ xs) s = length-take_list 10 (x ∷ xs)

  normalize_files-bound : (raw : _) (s : String) → length (normalize_files env raw s) ≤ 10
  unfolding normalize_files
  normalize_files-bound missing s = extract_files-bound s
  normalize_files-bound null s = extract_files-bound s
  normalize_files-bound (str x) s = extract_files-bound s
  normalize_files-bound (items xs shown) s = listed-bound _ s
  normalize_files-bound (other truthy shown) s = extract_files-bound s

  heuristic-IsRoutable :
      (user_message context : String)
      → Yields IsRoutable (classify_with_heuristic env user_message context)
  unfolding classify_with_heuristic
  heuristic-IsRoutable user_message context =
      owned_return (infer_difficulty (lower user_message) user_message) _
        (infer_difficulty-IsOwned (lower user_message) user_message)
        (λ owner e. record {
          owned = e;
          asks = asked (infer_difficulty (lower user_message) user_message);
          few_files = extract_files-bound context;
        })

  allowed-IsRoutable :
      (payload : Payload) (difficulty user_message context : String)
      → Ensures IsRoutable (allowed_route env payload difficulty user_message context)
  unfolding allowed_route
  allowed-IsRoutable payload difficulty user_message context = owned_by difficulty _ (λ owner e.
      record {
        owned = e;
        asks = question_asks difficulty (question_of payload.clarification_question);
        few_files = normalize_files-bound payload.relevant_files context;
      })

  payload-IsRoutable :
      (payload : Payload) (user_message context : String)
      → Ensures IsRoutable (route_of_payload env payload user_message context)
  unfolding route_of_payload
  payload-IsRoutable payload user_message context = search (ensures_rules, allowed-IsRoutable)

  llm-IsRoutable :
      (user_message context : String)
      → Ensures IsRoutable (classify_with_llm env user_message context)
  unfolding classify_with_llm
  llm-IsRoutable user_message context = search (ensures_rules, payload-IsRoutable)

  classify_request-IsRoutable :
      (use_llm : Bool) (user_message context : String)
      → Yields IsRoutable (classify_request env use_llm user_message context)
  unfolding classify_request
  classify_request-IsRoutable true user_message context =
      Yields-catch _ (λ e. heuristic-IsRoutable _ _) _ (llm-IsRoutable _ _)
  classify_request-IsRoutable false user_message context = heuristic-IsRoutable _ _

  compress_message-IsShort :
      (use_llm : Bool) (user_message : String) (conversation : List Turn)
      → Yields IsShort (compress_message env use_llm user_message conversation)
  unfolding compress_message
  compress_message-IsShort true user_message conversation =
      Yields-bind {Q = λ _. Unit} _
        (λ compressed _. Yields-pure _ (compressed-IsShort compressed _)) _
        (Yields-catch _ (λ e. Yields-pure _ tt) _ (anything _))
  compress_message-IsShort false user_message conversation = Yields-pure _ (compressed-IsShort "" _)

  new_id-Yields : Yields (λ _. Unit) (new_work_order_id env)
  unfolding new_work_order_id
  new_id-Yields = record { at = λ s. tt }

-- The owner is the one of the difficulty, an unclear request carries a question to ask, and the
-- files and the context are bounded.
pub record IsWellFormed (order : WorkOrder) : Type 0 where
  pub owned : owner_for_difficulty order.difficulty ≡ ok order.owner
  pub asks : order.difficulty ≡ "unclear" → nonempty (get_or order.clarification_question "") ≡ true
  pub few_files : length order.relevant_files ≤ 10
  pub short_context : len_text order.compressed_context ≤ 4000

order_of-IsWellFormed :
    (env : Env Payload) (route : RouteResult) (id context : String) (deadline : Option String)
    → IsRoutable route
    → IsShort context
    → IsWellFormed (order_of env route id context deadline)
unfolding order_of
order_of-IsWellFormed env route id context deadline routable short = record {
  owned = routable.owned;
  asks = routable.asks;
  few_files = routable.few_files;
  short_context = short;
}

-- Whatever the model answers or fails to answer, the admin agent returns a work order: its owner is
-- the role of its difficulty, an unclear one carries a question, it names at most ten files, and its
-- context has at most 4000 characters.
pub create_work_order-IsWellFormed :
    (env : Env Payload) (use_llm : Bool) (user_message : String) (conversation : List Turn)
    (deadline : Option String)
    → Yields IsWellFormed (create_work_order env use_llm user_message conversation deadline)
unfolding create_work_order
create_work_order-IsWellFormed env use_llm user_message conversation deadline =
    Yields-bind _
      (λ context short.
        Yields-bind _
          (λ route routable.
            Yields-bind _
              (λ id _.
                Yields-pure _ (order_of-IsWellFormed env route id context deadline routable short))
              _ (new_id-Yields env))
          _ (classify_request-IsRoutable env use_llm user_message context))
      _ (compress_message-IsShort env use_llm user_message conversation)
