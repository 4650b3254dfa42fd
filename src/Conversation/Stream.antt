-- ===== src/Conversation/Stream.antt =====
-- What `runConversation` makes of the chunks that a driver of internal/adapter/llm delivers.
use narrative_ai_agent.Prelude.{
  ◌≡◌, Bool, true, false, ◌||◌, not, Option, none, some, List, [], ◌∷◌, ◌++◌, if◌then◌else◌, Result,
  ok, err, is_nil, arith, append-nil, append_assoc, ap, sym, ◌∙◌, Bool-cases, Option-cases, inl,
  inr,
}
use narrative_ai_agent.Prelude.Int.{ℤ, pos, ltb_ℤ}
use narrative_ai_agent.Prelude.Text.{Text, is_empty}
use narrative_ai_agent.Conversation.{ToolCall}

pub record Usage : Type 0 where
  pub prompt_tokens : ℤ
  pub completion_tokens : ℤ
  pub total_tokens : ℤ

-- `llm.Chunk`, without the reasoning and the raw trace, which only the logs read.
pub record Chunk : Type 0 where
  pub content : Text
  pub tool_calls : List ToolCall
  pub finish : Text
  pub done : Bool
  pub usage : Usage

-- The arguments of a tail go to the most recent head.
extend_last : List ToolCall → ToolCall → List ToolCall
extend_last [] ic = ic ∷ []
extend_last (c ∷ []) ic =
    record c {
      function = record {
        name = c.function.name;
        arguments = c.function.arguments ++ ic.function.arguments;
      };
    }
    ∷ []
extend_last (c ∷ d ∷ cs) ic = c ∷ extend_last (d ∷ cs) ic

merge_tool_call : List ToolCall → ToolCall → List ToolCall
unfolding extend_last
merge_tool_call acc ic =
    if not (is_empty ic.id) || not (is_empty ic.function.name)
    then acc ++ (ic ∷ [])
    else extend_last acc ic

unfoldable pub merge_tool_calls : List ToolCall → List ToolCall → List ToolCall
unfolding merge_tool_call
merge_tool_calls acc [] = acc
merge_tool_calls acc (ic ∷ ics) = merge_tool_calls (merge_tool_call acc ic) ics

-- What the variables of one round hold.
pub record Received : Type 0 where
  pub assistant_buf : Text
  pub tool_calls : List ToolCall
  pub finish_reason : Text
  pub usage_from_api : Usage
  pub got_usage : Bool

abbrev pub nothing_received : Received
nothing_received = record {
  assistant_buf = [];
  tool_calls = [];
  finish_reason = [];
  usage_from_api = record {
    prompt_tokens = pos 0;
    completion_tokens = pos 0;
    total_tokens = pos 0;
  };
  got_usage = false;
}

has_usage : Usage → Bool
has_usage u = ltb_ℤ (pos 0) u.total_tokens || ltb_ℤ (pos 0) u.prompt_tokens

-- The part of the callback after the text has been shown.
take_chunk : Chunk → Received → Received
unfolding has_usage
take_chunk ch r = record {
  assistant_buf = r.assistant_buf ++ ch.content;
  tool_calls =
      if is_nil ch.tool_calls then r.tool_calls else merge_tool_calls r.tool_calls ch.tool_calls;
  finish_reason = if is_empty ch.finish then r.finish_reason else ch.finish;
  usage_from_api = if has_usage ch.usage then ch.usage else r.usage_from_api;
  got_usage = r.got_usage || has_usage ch.usage;
}

module _ {W : Type 0} (on_delta : Text → W → Option Text × W) where
  show_delta : Text → W → Option Text × W
  show_delta [] w = (none, w)
  show_delta (c ∷ cs) w = on_delta (c ∷ cs) w

  -- The callback on the chunks, in order: the first error of `OnDelta` ends the stream.
  unfoldable pub receive : List Chunk → Received → W → Result Text Received × W
  unfolding take_chunk show_delta
  receive [] r w = (ok r, w)
  receive (ch ∷ chs) r w = elim ch.done [
    | true ↦ receive chs r w
    | false ↦
        let (failure, w') = show_delta ch.content w in
        elim failure [ none ↦ receive chs (take_chunk ch r) w' | some e ↦ (err e, w') ]
  ]

-- The text of the chunks before the terminal one.
abbrev pub streamed : List Chunk → Text
streamed [] = []
streamed (ch ∷ chs) = let rest = streamed chs in if ch.done then rest else ch.content ++ rest

abbrev pub all_arguments : List ToolCall → Text
all_arguments [] = []
all_arguments (c ∷ cs) = c.function.arguments ++ all_arguments cs

extend_last-arguments :
    (acc : List ToolCall) (ic : ToolCall)
    → all_arguments (extend_last acc ic) ≡ all_arguments acc ++ ic.function.arguments
unfolding extend_last
extend_last-arguments [] ic = append-nil _
extend_last-arguments (c ∷ []) ic =
    append-nil _ ∙ ap (λ t. t ++ ic.function.arguments) (sym (append-nil c.function.arguments))
extend_last-arguments (c ∷ d ∷ cs) ic =
    ap (◌++◌ c.function.arguments) (extend_last-arguments (d ∷ cs) ic)
    ∙ sym (append_assoc c.function.arguments _ _)

all_arguments-concat :
    (acc : List ToolCall) (ic : ToolCall)
    → all_arguments (acc ++ (ic ∷ [])) ≡ all_arguments acc ++ ic.function.arguments
all_arguments-concat [] ic = append-nil _
all_arguments-concat (c ∷ cs) ic =
    ap (◌++◌ c.function.arguments) (all_arguments-concat cs ic)
    ∙ sym (append_assoc c.function.arguments _ _)

merge_tool_call-arguments :
    (acc : List ToolCall) (ic : ToolCall)
    → all_arguments (merge_tool_call acc ic) ≡ all_arguments acc ++ ic.function.arguments
unfolding merge_tool_call
merge_tool_call-arguments acc ic =
    elim (Bool-cases (not (is_empty ic.id) || not (is_empty ic.function.name))) [
      | inl e ↦ rw e (all_arguments-concat acc ic)
      | inr e ↦ rw e (extend_last-arguments acc ic)
    ]

-- `mergeToolCalls` loses no fragment of an argument and keeps their order: the arguments of the
-- merged calls, one after the other, are those collected before and then those of the chunk.
pub merge_tool_calls-arguments :
    (acc ics : List ToolCall)
    → all_arguments (merge_tool_calls acc ics) ≡ all_arguments acc ++ all_arguments ics
unfolding merge_tool_calls
merge_tool_calls-arguments acc [] = sym (append-nil _)
merge_tool_calls-arguments acc (ic ∷ ics) =
    merge_tool_calls-arguments (merge_tool_call acc ic) ics
    ∙ ap (λ t. t ++ all_arguments ics) (merge_tool_call-arguments acc ic)
    ∙ append_assoc (all_arguments acc) ic.function.arguments (all_arguments ics)

-- A stream that ends without an error has put the whole streamed text, in order, behind what the
-- buffer held.
pub receive-buffer :
    {W : Type 0} (on_delta : Text → W → Option Text × W) (chs : List Chunk) (r : Received) (w : W)
    {r' : Received} {w' : W}
    → receive on_delta chs r w ≡ (ok r', w')
    → r'.assistant_buf ≡ r.assistant_buf ++ streamed chs
unfolding receive
receive-buffer on_delta [] r w h = ground (arith, append-nil r.assistant_buf)
receive-buffer on_delta (ch ∷ chs) r w {r'} {w'} h = elim (Bool-cases ch.done) [
  | inl e ↦ rw e (receive-buffer on_delta chs r w (rw e at h))
  | inr e ↦ elim (Option-cases (show_delta on_delta ch.content w).0) [
    | inl shown ↦
        let rest : r'.assistant_buf ≡ (r.assistant_buf ++ ch.content) ++ streamed chs =
          receive-buffer on_delta chs (take_chunk ch r) (show_delta on_delta ch.content w).1
            (rw (e, shown) at h) in
        rw e (rest ∙ append_assoc r.assistant_buf ch.content (streamed chs))
    | inr (x, failed) ↦ ground (arith, rw (e, failed) at h)
  ]
]
