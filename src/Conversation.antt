-- ===== src/Conversation.antt =====
-- The chat history of internal/usecase/gm.go, over the message types of internal/adapter/llm/types.go.
pub mod Compaction
pub mod Stream
pub mod Services
pub mod Turn
pub mod History
pub mod Gm
use narrative_ai_agent.Prelude.{
  ℕ, zero, suc, Bool, true, false, ◌&&◌, not, Option, none, some, List, [], ◌∷◌, if◌then◌else◌, any,
  is_nil, take,
}
use narrative_ai_agent.Prelude.Int.{ℤ}
use narrative_ai_agent.Prelude.Text.{Text, is_empty}

-- The four values of `Message.Role`.
pub data Role : Type 0 where
  system : Role
  user : Role
  assistant : Role
  tool : Role

pub record FunctionCall : Type 0 where
  pub name : Text
  pub arguments : Text

pub record ToolCall : Type 0 where
  pub index : ℤ
  pub id : Text
  pub kind : Text
  pub function : FunctionCall

pub record Message : Type 0 where
  pub role : Role
  pub content : Text
  pub name : Text
  pub tool_call_id : Text
  pub tool_calls : List ToolCall

-- A message with a role and a content.
abbrev pub message : Role → Text → Message
message who body = record {
  role = who;
  content = body;
  name = [];
  tool_call_id = [];
  tool_calls = [];
}

abbrev pub is_user : Message → Bool
is_user m = elim m.role [ user ↦ true | _ ↦ false ]

-- The roles at which `trimTrailingAssistant` stops.
abbrev pub is_turn_start : Message → Bool
is_turn_start m = elim m.role [ user ↦ true | system ↦ true | assistant ↦ false | tool ↦ false ]

-- `slices.Backward` until the test holds: the index of the last message that passes it.
unfoldable pub last_index : (Message → Bool) → List Message → Option ℕ
last_index p [] = none
last_index p (m ∷ ms) = elim (last_index p ms) [
  | some i ↦ some (suc i)
  | none ↦ if p m then some 0 else none
]

unfoldable pub trim_trailing_assistant : List Message → List Message
unfolding last_index
trim_trailing_assistant ms = elim (last_index is_turn_start ms) [
  | none ↦ ms
  | some i ↦ take (suc i) ms
]

-- `none` is -1.
unfoldable pub last_user_index : List Message → Option ℕ
unfolding last_index
last_user_index ms = last_index is_user ms

-- `ms[i].Content = body`.
abbrev pub set_content : ℕ → Text → List Message → List Message
set_content i body [] = []
set_content zero body (m ∷ ms) = record m { content = body } ∷ ms
set_content (suc i) body (m ∷ ms) = m ∷ set_content i body ms

-- A round whose calls have all lost their names.
unfoldable pub all_tool_calls_broken : List ToolCall → Bool
all_tool_calls_broken calls =
    not (is_nil calls) && not (any (λ c. not (is_empty c.function.name)) calls)
