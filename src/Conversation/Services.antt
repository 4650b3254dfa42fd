-- ===== src/Conversation/Services.antt =====
-- The types and the pure parts of a turn in internal/usecase/gm.go, and the services that it calls.
-- The context, the model, the tools and the player's window are services, which act on a state `W`.
use narrative_ai_agent.Prelude.{ℕ, ◌+◌, Bool, Option, List, [], ◌++◌, if◌then◌else◌, Result}
use narrative_ai_agent.Prelude.Int.{ℤ, pos, ◌+ℤ◌}
use narrative_ai_agent.Prelude.Text.{Text, lit}
use narrative_ai_agent.Conversation.{
  user, assistant, Message, message, ToolCall, all_tool_calls_broken,
}
use narrative_ai_agent.Conversation.Compaction.{
  CompactionConfig, CompactionResult, estimate_messages, estimate_tokens,
}
use narrative_ai_agent.Conversation.Stream.{Chunk, Received}

pub data ReplyError : Type 0 where
  context_failed : Text → ReplyError
  stream_failed : Text → ReplyError
  empty_reply : Text → ReplyError
  too_many_rounds : ReplyError
  no_last_user_turn : ReplyError

-- The token tracking of the configuration; any other text is `off`.
pub data Tracking : Type 0 where
  tracking_off : Tracking
  tracking_estimate : Tracking
  tracking_usage : Tracking

-- `TokenUsage.Source`; `unset` is the empty text.
pub data Source : Type 0 where
  unset : Source
  off : Source
  estimate : Source
  usage : Source

pub record TokenUsage : Type 0 where
  pub prompt_tokens : ℤ
  pub completion_tokens : ℤ
  pub total_tokens : ℤ
  pub source : Source

pub record Settings : Type 0 where
  pub compaction : CompactionConfig
  pub static_chars : ℕ
  pub in_place : Bool
  pub tracking : Tracking

pub record Services (W : Type 0) : Type 0 where
  -- The system message and the world-state message.
  pub build_context : W → Result Text (Text × Text) × W
  -- The chunks that the driver delivers to the callback, and its own error.
  pub stream : List Message → W → (List Chunk × Option Text) × W
  pub on_delta : Text → W → Option Text × W
  -- The text of the tool message.
  pub dispatch : ToolCall → W → Text × W
  -- The directives in the text of an answer without tool calls.
  pub execute_extracted : Text → W → W
  -- The summary of the dropped messages, the row of system_state.md and the notice.
  pub report_compaction : List Message → CompactionResult → W → W
  pub invalidate : W → W
  -- How many times end_scene has deleted the conversations of all chats.
  pub chats_dropped : W → ℕ

pub record Turn (W : Type 0) : Type 0 where
  -- `conv.messages`, the copy that the rounds send, and the variables of the loop.
  pub messages : List Message
  pub history : List Message
  pub totals : TokenUsage
  pub tool_only_rounds : ℕ
  pub world : W

abbrev pub max_tool_rounds : ℕ
max_tool_rounds = 10

abbrev pub max_stuck_tool_rounds : ℕ
max_stuck_tool_rounds = 3

abbrev pub nudge : Message
nudge = message user (
    lit
      "[система] Все инструменты выполнены. Теперь обязательно напиши нарративный ответ игроку в формате JSON (narration, context, future, validation). Не вызывай больше инструменты.")

unfoldable pub estimated : List Message → Text → TokenUsage
estimated sent body =
    let prompt = estimate_messages sent in
    let completion = estimate_tokens body in
    record {
      prompt_tokens = pos prompt;
      completion_tokens = pos completion;
      total_tokens = pos (prompt + completion);
      source = estimate;
    }

unfoldable merge_source : Source → Source → Source
merge_source unset new = new
merge_source off new = new
merge_source old new = old

unfoldable pub add_usage : TokenUsage → TokenUsage → TokenUsage
unfolding merge_source
add_usage totals round = record {
  prompt_tokens = totals.prompt_tokens +ℤ round.prompt_tokens;
  completion_tokens = totals.completion_tokens +ℤ round.completion_tokens;
  total_tokens = totals.total_tokens +ℤ round.total_tokens;
  source = merge_source totals.source round.source;
}

-- `append` on both copies of the history.
abbrev pub append_turn : {W : Type 0} → List Message → Turn W → Turn W
append_turn ms t = record t { messages = t.messages ++ ms; history = t.history ++ ms }

abbrev stored_calls : List ToolCall → List ToolCall
stored_calls calls = if all_tool_calls_broken calls then [] else calls

abbrev pub assistant_turn : Received → Message
assistant_turn r = record (message assistant r.assistant_buf) {
  tool_calls = stored_calls r.tool_calls;
}

-- How a round ends: with another one, or with an answer or an error of the whole turn.
pub data Step (W : Type 0) : Type 0 where
  again : Turn W → Step W
  stop : Result ReplyError (Unit {0}) → Turn W → Step W
