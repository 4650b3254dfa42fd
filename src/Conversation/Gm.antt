-- ===== src/Conversation/Gm.antt =====
-- The entry points of internal/usecase/gm.go on the histories of the chats: `Reply`,
-- `RegenerateLast`, `EditAndRegenerate` and the resets.
pub mod Entry
use narrative_ai_agent.Prelude.{
  ℕ, suc, ◌==◌, Bool, true, false, Option, none, some, List, [], ◌∷◌, ◌++◌, if◌then◌else◌, Result,
  ok, err, length, take,
}
use narrative_ai_agent.Prelude.Int.{ℤ, pos}
use narrative_ai_agent.Prelude.Text.{Text}
use narrative_ai_agent.Repositories.{update}
use narrative_ai_agent.Conversation.{
  Message, message, user, trim_trailing_assistant, last_user_index, set_content,
}
use narrative_ai_agent.Conversation.Services.{
  Settings, Services, TokenUsage, unset, ReplyError, no_last_user_turn, Turn,
}
use narrative_ai_agent.Conversation.Turn.{run_conversation}

-- A chat that is not in the map yet has an empty history.
pub record Gm (W : Type 0) : Type 0 where
  pub conversations : Text → List Message
  pub turn_counter : ℕ
  pub world : W

abbrev no_usage : TokenUsage
no_usage = record {
  prompt_tokens = pos 0;
  completion_tokens = pos 0;
  total_tokens = pos 0;
  source = unset;
}

-- The answer of an entry point: its error, the token counts and the state after it.
pub record Answer (W : Type 0) : Type 0 where
  pub result : Result ReplyError (Unit {0})
  pub totals : TokenUsage
  pub gm : Gm W

abbrev pub count_turn : {W : Type 0} → Gm W → Gm W
count_turn g = record g { turn_counter = suc g.turn_counter }

abbrev pub refused : {W : Type 0} → Gm W → Answer W
refused g = record { result = err no_last_user_turn; totals = no_usage; gm = g }

abbrev reset_conversation : {W : Type 0} → Text → Gm W → Gm W
reset_conversation chat g = record g { conversations = update g.conversations chat [] }

abbrev reset_all_conversations : {W : Type 0} → Gm W → Gm W
reset_all_conversations g = record g { conversations = λ chat. [] }

module _ {W : Type 0} (cfg : Settings) (svc : Services W) where
  -- The histories after a turn. The turn writes to the conversation that it has taken from the map; where end_scene has
  -- emptied the map meanwhile, no chat has one any more.
  abbrev pub histories_after : Text → Turn W → Gm W → Text → List Message
  histories_after chat t g =
      if svc.chats_dropped t.world == svc.chats_dropped g.world
      then update g.conversations chat t.messages
      else λ c. []

  -- The turn on the given history of the chat.
  unfoldable pub run_chat : Text → List Message → Gm W → Answer W
  run_chat chat ms g =
      let (result, t) = run_conversation cfg svc ms g.world in
      record {
        result = result;
        totals = t.totals;
        gm = record g { conversations = histories_after chat t g; world = t.world };
      }

  unfoldable pub reply : Text → Text → Gm W → Answer W
  reply chat body g =
      run_chat chat (g.conversations chat ++ (message user body ∷ [])) (count_turn g)

  unfoldable pub regenerate_last : Text → Gm W → Answer W
  regenerate_last chat g =
      let ms = g.conversations chat in
      let trimmed = trim_trailing_assistant ms in
      if length trimmed == length ms
      then refused (count_turn g)
      else run_chat chat trimmed (count_turn g)

  unfoldable pub edit_and_regenerate : Text → Text → Gm W → Answer W
  edit_and_regenerate chat body g =
      let trimmed = trim_trailing_assistant (g.conversations chat) in
      elim (last_user_index trimmed) [
        | none ↦ refused (count_turn g)
        | some i ↦ run_chat chat (take (suc i) (set_content i body trimmed)) (count_turn g)
      ]
