-- ===== src/Conversation/Compaction.antt =====
-- internal/usecase/compaction.go and the estimates of internal/adapter/llm/tokens.go.
use narrative_ai_agent.Prelude.{
  ◌≡◌, ℕ, zero, suc, ◌+◌, ◌-◌, ◌/◌, ◌≤◌, Bool, true, false, ◌||◌, List, [], ◌∷◌, ◌++◌,
  if◌then◌else◌, arith, length, drop, take, leb, take-append-drop, length-drop,
}
use narrative_ai_agent.Prelude.Int.{ℤ, pos, negsuc, leb_ℤ}
use narrative_ai_agent.Prelude.Text.{Text, is_empty, byte_len}
use narrative_ai_agent.Conversation.{ToolCall, Message}

unfoldable pub estimate_tokens : Text → ℕ
estimate_tokens t = if is_empty t then 0 else (byte_len t + 3) / 4

call_tokens : List ToolCall → ℕ
call_tokens [] = 0
call_tokens (c ∷ cs) =
    estimate_tokens c.function.name + estimate_tokens c.function.arguments + call_tokens cs

unfoldable pub estimate_messages : List Message → ℕ
unfolding call_tokens
estimate_messages [] = 0
estimate_messages (m ∷ ms) =
    estimate_tokens m.content
    + (if is_empty m.name then 0 else estimate_tokens m.name)
    + call_tokens m.tool_calls
    + estimate_messages ms

call_bytes : List ToolCall → ℕ
call_bytes [] = 0
call_bytes (c ∷ cs) = byte_len c.function.name + byte_len c.function.arguments + call_bytes cs

conversation_bytes : List Message → ℕ
unfolding call_bytes
conversation_bytes [] = 0
conversation_bytes (m ∷ ms) =
    byte_len m.content
    + call_bytes m.tool_calls
    + (if is_empty m.name then 0 else byte_len m.name)
    + conversation_bytes ms

unfoldable pub estimate_conversation_tokens : List Message → ℕ → ℕ
unfolding conversation_bytes
estimate_conversation_tokens ms system_chars = (system_chars + conversation_bytes ms + 3) / 4

-- `CompactionConfig`. The threshold is a float64 in the source: here whether it is positive, and
-- `int(float64(ContextWindow) * Threshold)`.
pub record CompactionConfig : Type 0 where
  pub context_window : ℤ
  pub threshold_positive : Bool
  pub threshold_tokens : ℤ
  pub keep_recent : ℕ

unfoldable pub needs_compaction : CompactionConfig → List Message → ℕ → Bool
unfolding estimate_conversation_tokens
needs_compaction cfg ms system_chars =
    if leb_ℤ cfg.context_window (pos 0) || (if cfg.threshold_positive then false else true)
    then false
    else leb_ℤ cfg.threshold_tokens (pos (estimate_conversation_tokens ms system_chars))

pub record CompactionResult : Type 0 where
  pub before_tokens : ℕ
  pub after_tokens : ℕ
  pub dropped_turns : ℕ
  pub kept_recent : ℕ

-- `if keepRecent < 0 { keepRecent = 0 }`.
abbrev clamp_recent : ℤ → ℕ
clamp_recent (pos n) = n
clamp_recent (negsuc n) = 0

compact_to : List Message → ℕ → List Message × CompactionResult
compact_to ms n =
    let before = estimate_conversation_tokens ms 0 in
    if leb (length ms) n
    then (
      ms,
      record { before_tokens = before; after_tokens = before; dropped_turns = 0; kept_recent = n },
    )
    else (
      drop (length ms - n) ms,
      record {
        before_tokens = before;
        after_tokens = estimate_conversation_tokens (drop (length ms - n) ms) 0;
        dropped_turns = length ms - n;
        kept_recent = n;
      },
    )

unfoldable pub compact_conversations : List Message → ℤ → List Message × CompactionResult
unfolding compact_to
compact_conversations ms keep_recent = compact_to ms (clamp_recent keep_recent)

conversation_bytes-drop :
    (n : ℕ) (ms : List Message) → conversation_bytes (drop n ms) ≤ conversation_bytes ms
unfolding conversation_bytes
conversation_bytes-drop zero ms = omega arith
conversation_bytes-drop (suc n) [] = omega arith
conversation_bytes-drop (suc n) (m ∷ ms) = omega (arith, conversation_bytes-drop n ms)

-- `CompactConversations` drops the oldest messages and keeps the rest in order: the number that it
-- reports, put in front of what it keeps, is the whole history. It keeps at most `keepRecent`
-- messages, or everything where it drops nothing, and its estimate does not grow.
pub compact_conversations-suffix :
    (ms : List Message) (n : ℤ)
    → let (kept, res) = compact_conversations ms n in
      (take res.dropped_turns ms ++ kept ≡ ms)
      × (length kept + res.dropped_turns ≡ length ms)
      × (length kept ≤ clamp_recent n)
      × (res.after_tokens ≤ res.before_tokens)
unfolding compact_conversations estimate_conversation_tokens
compact_conversations-suffix ms n =
    let k = length ms - clamp_recent n in
    ground (arith, take-append-drop k ms, length-drop k ms, conversation_bytes-drop k ms)
