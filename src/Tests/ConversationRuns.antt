-- ===== src/Tests/ConversationRuns.antt =====
-- A chat whose model follows a script.
use narrative_ai_agent.Prelude.{◌≡◌, refl, true, false, Option, none, some, List, [], ◌∷◌, ◌++◌, ok}
use narrative_ai_agent.Prelude.Int.{pos}
use narrative_ai_agent.Prelude.Text.{Text, lit, text_eq}
use narrative_ai_agent.Conversation.{
  Message, message, user, assistant, ToolCall, all_tool_calls_broken,
}
use narrative_ai_agent.Conversation.Compaction.{needs_compaction}
use narrative_ai_agent.Conversation.Stream.{
  Chunk, Received, merge_tool_calls, receive, nothing_received,
}
use narrative_ai_agent.Conversation.Services.{
  Settings, Services, tracking_estimate, max_tool_rounds,
}
use narrative_ai_agent.Conversation.Turn.{
  run_conversation, preflight, run_rounds, start_turn, execute_tools,
}
use narrative_ai_agent.Conversation.Turn.Transcript.{IsTranscript}
use narrative_ai_agent.Conversation.Turn.Outcome.{
  IsSuffix, IsSpoken, run_conversation-history, run_conversation-IsSpoken,
}
use narrative_ai_agent.Conversation.Gm.{Gm, run_chat, count_turn, edit_and_regenerate}
use narrative_ai_agent.Conversation.Gm.Entry.{edit_and_regenerate-reruns}

abbrev call : Text → Text → Text → ToolCall
call id name arguments = record {
  index = pos 0;
  id = id;
  kind = lit "function";
  function = record { name = name; arguments = arguments };
}

abbrev chunk : Text → List ToolCall → Text → Chunk
chunk content calls finish = record {
  content = content;
  tool_calls = calls;
  finish = finish;
  done = false;
  usage = record { prompt_tokens = pos 0; completion_tokens = pos 0; total_tokens = pos 0 };
}

abbrev Script : Type 0
Script = List (List Chunk)

abbrev play : List Message → Script → (List Chunk × Option Text) × Script
play sent [] = (([], some (lit "down")), [])
play sent (chunks ∷ script) = ((chunks, none), script)

abbrev scripted : Services Script
scripted = record {
  build_context = λ w. (ok (lit "s", lit "w"), w);
  stream = play;
  on_delta = λ t w. (none, w);
  dispatch = λ tc w. (lit "done", w);
  execute_extracted = λ t w. w;
  report_compaction = λ ms res w. w;
  invalidate = λ w. w;
  chats_dropped = λ w. 0;
}

abbrev settings : Settings
settings = record {
  compaction = record {
    context_window = pos 0;
    threshold_positive = true;
    threshold_tokens = pos 0;
    keep_recent = 5;
  };
  static_chars = 0;
  in_place = false;
  tracking = tracking_estimate;
}

-- One round with a tool, whose arguments come in two parts, and then an answer.
abbrev tool_then_text : Script
tool_then_text =
    (chunk [] (call (lit "1") (lit "roll") (lit "ab") ∷ []) []
      ∷ chunk [] (call [] [] (lit "cd") ∷ []) (lit "tool_calls")
      ∷ [])
    ∷ (chunk (lit "he") [] [] ∷ chunk (lit "llo") [] (lit "stop") ∷ [])
    ∷ []

abbrev question : Message
question = message user (lit "q")

abbrev reply_text : Message
reply_text = message assistant (lit "a")

abbrev hello : List Chunk
hello = chunk (lit "he") [] [] ∷ chunk (lit "llo") [] (lit "stop") ∷ []

abbrev hello_received : Received
hello_received = record nothing_received { assistant_buf = lit "hello"; finish_reason = lit "stop" }

hello_runs : receive scripted.on_delta hello nothing_received [] ≡ (ok hello_received, [])
unfolding receive
hello_runs = refl

run_conversation-history_example :
    let t = (run_conversation settings scripted (question ∷ []) tool_then_text).1 in
    (kept new : List Message) × IsSuffix (question ∷ []) kept
    × IsTranscript max_tool_rounds 0 new
    × (t.messages ≡ kept ++ new)
    × (t.history ≡ t.messages)
run_conversation-history_example =
    run_conversation-history settings scripted (question ∷ []) tool_then_text

conversation_succeeds :
    (run_conversation settings scripted (question ∷ []) tool_then_text).0 ≡ ok tt
unfolding run_conversation run_rounds preflight start_turn receive merge_tool_calls execute_tools
    all_tool_calls_broken text_eq needs_compaction
conversation_succeeds = refl

run_conversation-IsSpoken_example :
    IsSpoken (run_conversation settings scripted (question ∷ []) tool_then_text).1.messages
run_conversation-IsSpoken_example =
    run_conversation-IsSpoken settings scripted (question ∷ []) tool_then_text conversation_succeeds

abbrev chat : List Message → Gm Script
chat ms = record { conversations = λ c. ms; turn_counter = 0; world = tool_then_text }

edit_and_regenerate-reruns_example :
    edit_and_regenerate settings scripted (lit "c") (lit "r") (chat (question ∷ reply_text ∷ []))
    ≡ run_chat settings scripted
        (lit "c")
        (message user (lit "r") ∷ [])
        (count_turn (chat (question ∷ reply_text ∷ [])))
edit_and_regenerate-reruns_example =
    edit_and_regenerate-reruns settings scripted (lit "c") (chat (question ∷ reply_text ∷ []))
      (lit "r") [] question (reply_text ∷ []) refl refl (refl, tt)
