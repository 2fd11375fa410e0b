-- ===== src/NexusV1/Admin/Compress.antt =====
-- The context that goes into a work order.
use nexus_ai_team.Prelude.{
  ℕ, zero, suc, ◌-◌, ◌/◌, leb, String, Bool, true, false, List, [], ◌∷◌, ◌++◌, length, is_empty,
  if◌then◌else◌,
}
use nexus_ai_team.Prelude.Text.{
  ◌⁀◌, strip, nonempty, join, take_text, drop_text, len_text, is_space,
}

-- A message of the conversation: str() of its role and of its content.
pub record Turn : Type 0 where
  pub role : String
  pub content : String

unfoldable pub drop_list {ℓ} : {A : Type ℓ} → ℕ → List A → List A
drop_list zero xs = xs
drop_list (suc n) [] = []
drop_list (suc n) (x ∷ xs) = drop_list n xs

unfoldable pub take_list {ℓ} : {A : Type ℓ} → ℕ → List A → List A
take_list zero xs = []
take_list (suc n) [] = []
take_list (suc n) (x ∷ xs) = x ∷ take_list n xs

-- xs[-n:] for a positive n
unfoldable pub last_of {ℓ} : {A : Type ℓ} → ℕ → List A → List A
unfolding drop_list
last_of n xs = drop_list (length xs - n) xs

turn_lines : List Turn → List String
unfolding strip
turn_lines [] = []
turn_lines (turn ∷ turns) =
    let rest = turn_lines turns in
    let role = if nonempty (strip turn.role) then strip turn.role else "user" in
    if nonempty (strip turn.content) then ("- " ⁀ role ⁀ ": " ⁀ strip turn.content) ∷ rest else rest

unfoldable pub build_context_block : String → List Turn → String
unfolding turn_lines last_of strip join
build_context_block user_message conversation =
    let excerpts =
      if is_empty conversation
      then []
      else "Conversation excerpts:" ∷ turn_lines (last_of 8 conversation) in
    strip (join "\n" (excerpts ++ ("Latest request:" ∷ strip user_message ∷ [])))

-- Each run of white space becomes one blank. `after_space` tells that one was just written.
collapse : (after_space : Bool) → String → String
unfolding is_space
collapse b String.[] = ""
collapse b (String.◌∷◌ c s) =
    let inside = collapse true s in
    let outside = collapse false s in
    if is_space c then (if b then inside else " " ⁀ inside) else String.◌∷◌ c outside

-- The head and the tail of a text that is too long.
unfoldable pub shorten : String → (max_chars : ℕ) → String
unfolding len_text take_text drop_text
shorten collapsed max_chars =
    let head = max_chars / 2 - 24 in
    let tail = max_chars - head - 24 in
    if leb (len_text collapsed) max_chars
    then collapsed
    else take_text head collapsed
      ⁀ " ... [truncated] ... "
      ⁀ (if leb 1 tail then drop_text (len_text collapsed - tail) collapsed else collapsed)

unfoldable pub fallback_compress : String → (max_chars : ℕ) → String
unfolding collapse strip shorten
fallback_compress request max_chars = shorten (strip (collapse false request)) max_chars
