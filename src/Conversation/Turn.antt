-- ===== src/Conversation/Turn.antt =====
-- `runConversation` of internal/usecase/gm.go: the compaction before a turn, and the rounds of a turn.
pub mod Rounds
pub mod Transcript
pub mod Outcome
use narrative_ai_agent.Prelude.{
  ℕ, zero, suc, ◌-◌, Bool, ◌&&◌, not, none, some, List, [], ◌∷◌, ◌++◌, if◌then◌else◌, Result, ok,
  err, is_nil, length, take, leb, ltb,
}
use narrative_ai_agent.Prelude.Int.{ℤ, pos, ltb_ℤ}
use narrative_ai_agent.Prelude.Text.{lit, is_empty, text_eq}
use narrative_ai_agent.Conversation.{system, user, tool, Message, message, ToolCall}
use narrative_ai_agent.Conversation.Compaction.{needs_compaction, compact_conversations}
use narrative_ai_agent.Conversation.Stream.{Received, nothing_received, receive}
use narrative_ai_agent.Conversation.Services.{
  ReplyError, context_failed, stream_failed, empty_reply, too_many_rounds, tracking_off,
  tracking_estimate, tracking_usage, unset, off, usage, TokenUsage, Settings, Services, Turn,
  max_tool_rounds, max_stuck_tool_rounds, nudge, estimated, add_usage, append_turn, assistant_turn,
  Step, again, stop,
}

module _ {W : Type 0} (cfg : Settings) (svc : Services W) where
  abbrev keep_recent : ℤ
  keep_recent = pos cfg.compaction.keep_recent

  -- Both copies of the history become what the compaction keeps.
  compact : Turn W → Turn W
  compact t =
      let kept = (compact_conversations t.history keep_recent).0 in
      record t { messages = kept; history = kept }

  is_due : Turn W → Bool
  is_due t =
      ltb_ℤ (pos 0) cfg.compaction.context_window
      && needs_compaction cfg.compaction t.history cfg.static_chars

  compact_reported : Turn W → Turn W
  unfolding is_due compact
  compact_reported t =
      let res = (compact_conversations t.history keep_recent).1 in
      if is_due t && ltb 0 res.dropped_turns
      then record (compact t) {
        world =
            svc.report_compaction (take (length t.history - cfg.compaction.keep_recent) t.history)
              res t.world;
      }
      else t

  compact_in_place : Turn W → Turn W
  unfolding is_due compact
  compact_in_place t =
      if cfg.in_place && is_due t then record (compact t) { world = svc.invalidate t.world } else t

  -- The compaction preflight.
  unfoldable pub preflight : Turn W → Turn W
  unfolding compact_reported compact_in_place
  preflight t = compact_in_place (compact_reported t)

  unfoldable pub account_round : List Message → Received → TokenUsage
  unfolding estimated
  account_round sent r = elim cfg.tracking [
    | tracking_off ↦ record {
      prompt_tokens = pos 0;
      completion_tokens = pos 0;
      total_tokens = pos 0;
      source = off;
    }
    | tracking_estimate ↦ estimated sent r.assistant_buf
    | tracking_usage ↦
        if r.got_usage
        then record {
          prompt_tokens = r.usage_from_api.prompt_tokens;
          completion_tokens = r.usage_from_api.completion_tokens;
          total_tokens = r.usage_from_api.total_tokens;
          source = usage;
        }
        else estimated sent r.assistant_buf
  ]

  unfoldable pub execute_tools : List ToolCall → W → List Message × W
  execute_tools [] w = ([], w)
  execute_tools (tc ∷ tcs) w =
      let (result, w') = svc.dispatch tc w in
      let (rest, w'') = execute_tools tcs w' in
      (record (message tool result) { name = tc.function.name; tool_call_id = tc.id } ∷ rest, w'')

  -- The assistant turn is stored, the directives are executed and the tokens are counted.
  stored_round : List Message → Received → Turn W → Turn W
  stored_round sent r t =
      let t' = append_turn (assistant_turn r ∷ []) t in
      record t' {
        world =
            if is_nil r.tool_calls then svc.execute_extracted r.assistant_buf t.world else t.world;
        totals = add_usage t.totals (account_round sent r);
      }

  -- The tools are executed, and a model that is stuck gets a nudge.
  tools_round : Received → Turn W → Turn W
  tools_round r t =
      let (results, w) = execute_tools r.tool_calls t.world in
      let silent = if is_empty r.assistant_buf then suc t.tool_only_rounds else 0 in
      if leb max_stuck_tool_rounds silent
      then record (append_turn (results ++ (nudge ∷ [])) t) { world = w; tool_only_rounds = 0 }
      else record (append_turn results t) { world = w; tool_only_rounds = silent }

  wants_tools : Received → Bool
  wants_tools r = not (is_nil r.tool_calls) && text_eq r.finish_reason (lit "tool_calls")

  pub answered : List Message → Received → Turn W → Step W
  unfolding stored_round tools_round wants_tools
  answered sent r t =
      let t' = stored_round sent r t in
      if wants_tools r
      then again (tools_round r t')
      else if is_empty r.assistant_buf
      then stop (err (empty_reply r.finish_reason)) t'
      else stop (ok tt) t'

  streamed_round : List Message → Turn W → Step W
  unfolding answered
  streamed_round sent t =
      let ((chunks, failure), w) = svc.stream sent t.world in
      let (received, w') = receive svc.on_delta chunks nothing_received w in
      elim received [
        | err e ↦ stop (err (stream_failed e)) (record t { world = w' })
        | ok r ↦ elim failure [
          | some e ↦ stop (err (stream_failed e)) (record t { world = w' })
          | none ↦ answered sent r (record t { world = w' })
        ]
      ]

  pub round : Turn W → Step W
  unfolding streamed_round
  round t =
      let (context, w) = svc.build_context t.world in
      elim context [
        | err e ↦ stop (err (context_failed e)) (record t { world = w })
        | ok (system_msg, world_msg) ↦
            streamed_round (message system system_msg ∷ message user world_msg ∷ t.history)
              (record t { world = w })
      ]

  -- `for round := range maxToolRounds`, with the rounds that are left.
  unfoldable pub run_rounds : ℕ → Turn W → Result ReplyError (Unit {0}) × Turn W
  unfolding round
  run_rounds zero t = (err too_many_rounds, t)
  run_rounds (suc n) t = elim (round t) [
    | again t' ↦ run_rounds n t'
    | stop result t' ↦ (result, t')
  ]

  unfoldable pub start_turn : List Message → W → Turn W
  start_turn ms w = record {
    messages = ms;
    history = ms;
    totals = record {
      prompt_tokens = pos 0;
      completion_tokens = pos 0;
      total_tokens = pos 0;
      source = elim cfg.tracking [ tracking_off ↦ off | _ ↦ unset ];
    };
    tool_only_rounds = 0;
    world = w;
  }

  unfoldable pub run_conversation : List Message → W → Result ReplyError (Unit {0}) × Turn W
  unfolding run_rounds preflight start_turn
  run_conversation ms w = run_rounds max_tool_rounds (preflight (start_turn ms w))
