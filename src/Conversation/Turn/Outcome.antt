-- ===== src/Conversation/Turn/Outcome.antt =====
-- What a turn as a whole guarantees: the history that it leaves, its answer and its token counts.
use narrative_ai_agent.Prelude.{
  ◌≡◌, ◌≢◌, refl, sym, ap, subst, ◌∙◌, ◌&&◌, List, [], ◌∷◌, ◌++◌, Result, ok, arith, append_assoc,
  take, Bool-cases, inl, inr, ltb,
}
use narrative_ai_agent.Prelude.Text.{is_empty, is_empty_iff}
use narrative_ai_agent.Conversation.{assistant, Message}
use narrative_ai_agent.Conversation.Compaction.{compact_conversations, compact_conversations-suffix}
use narrative_ai_agent.Conversation.Stream.{Received}
use narrative_ai_agent.Conversation.Services.{
  Settings, Services, Turn, ReplyError, assistant_turn, max_tool_rounds,
}
use narrative_ai_agent.Conversation.Turn.{
  keep_recent, compact, compact_reported, compact_in_place, is_due, preflight, start_turn,
  stored_round, wants_tools, answered, run_conversation,
}
use narrative_ai_agent.Conversation.Turn.Rounds.{round-induct, run_rounds-induct, Next}
use narrative_ai_agent.Conversation.Turn.Transcript.{IsTranscript, run_rounds-IsRun}

-- The second history is what is left of the first one after its oldest messages have gone.
pub record IsSuffix (all kept : List Message) : Type 0 where
  pub dropped : List Message
  pub whole : dropped ++ kept ≡ all

IsSuffix-trans : (a b c : List Message) → IsSuffix a b → IsSuffix b c → IsSuffix a c
IsSuffix-trans a b c h k = record {
  dropped = h.dropped ++ k.dropped;
  whole = append_assoc h.dropped k.dropped c ∙ ap (◌++◌ h.dropped) k.whole ∙ h.whole;
}

-- Both copies of the history are the same, and a suffix of `all`; no round has run.
record IsKept {W : Type 0} (all : List Message) (t : Turn W) : Type 0 where
  same : t.messages ≡ t.history
  suffix : IsSuffix all t.history
  fresh : t.tool_only_rounds ≡ 0

module _ {W : Type 0} (cfg : Settings) (svc : Services W) where
  compact-IsKept : (all : List Message) (t : Turn W) → IsKept all t → IsKept all (compact cfg svc t)
  unfolding compact
  compact-IsKept all t h =
      let n = keep_recent cfg svc in
      record {
        same = refl;
        fresh = h.fresh;
        suffix = IsSuffix-trans all t.history _ h.suffix (record {
          dropped = take (compact_conversations t.history n).1.dropped_turns t.history;
          whole = (compact_conversations-suffix t.history n).0;
        });
      }

  IsKept-of_world :
      (all : List Message) (t : Turn W) (w : W) → IsKept all t → IsKept all (record t { world = w })
  IsKept-of_world all t w h = record { same = h.same; suffix = h.suffix; fresh = h.fresh }

  compact_reported-IsKept :
      (all : List Message) (t : Turn W) → IsKept all t → IsKept all (compact_reported cfg svc t)
  unfolding compact_reported
  compact_reported-IsKept all t h =
      elim (Bool-cases (
        is_due cfg svc t
        && ltb 0 (compact_conversations t.history (keep_recent cfg svc)).1.dropped_turns)) [
          | inl e ↦ rw (compact_reported, e) (IsKept-of_world all _ _ (compact-IsKept all t h))
          | inr e ↦ rw (compact_reported, e) h
        ]

  preflight-IsKept :
      (all : List Message) (t : Turn W) → IsKept all t → IsKept all (preflight cfg svc t)
  unfolding preflight compact_in_place
  preflight-IsKept all t h =
      let first = compact_reported cfg svc t in
      let kept = compact_reported-IsKept all t h in
      elim (Bool-cases (cfg.in_place && is_due cfg svc first)) [
        | inl e ↦
            rw (preflight, compact_in_place, e)
              (IsKept-of_world all _ _ (compact-IsKept all first kept))
        | inr e ↦ rw (preflight, compact_in_place, e) kept
      ]

  -- Whatever the services answer, a turn drops the oldest messages of the history at most, keeps the rest
  -- as it is and appends a transcript of at most ten rounds: in it every executed call has its own tool
  -- message, and a nudge comes after three rounds without text, and only then. The two copies of the
  -- history stay the same.
  pub run_conversation-history :
      (ms : List Message) (w : W)
      → let t = (run_conversation cfg svc ms w).1 in
        (kept new : List Message) × IsSuffix ms kept
        × IsTranscript max_tool_rounds 0 new
        × (t.messages ≡ kept ++ new)
        × (t.history ≡ t.messages)
  unfolding run_conversation start_turn
  run_conversation-history ms w =
      let start = start_turn cfg svc ms w in
      let before = preflight cfg svc start in
      let kept : IsKept ms before =
        preflight-IsKept ms start
          (record { same = refl; suffix = record { dropped = []; whole = refl }; fresh = refl }) in
      let run = run_rounds-IsRun cfg svc max_tool_rounds before in
      (
        before.messages,
        run.new,
        subst (IsSuffix ms) (sym kept.same) kept.suffix,
        subst (λ n. IsTranscript max_tool_rounds n run.new) kept.fresh run.transcript,
        run.grown.messages_grown,
        run.grown.history_grown
            ∙ ap (λ h. h ++ run.new) (sym kept.same)
            ∙ sym run.grown.messages_grown,
      )

-- A history that ends in an answer with a text.
pub record IsSpoken (ms : List Message) : Type 0 where
  earlier : List Message
  pub spoken : Message
  pub at_end : ms ≡ earlier ++ (spoken ∷ [])
  by_assistant : spoken.role ≡ assistant
  with_text : spoken.content ≢ []

abbrev Spoken : {W : Type 0} → Result ReplyError (Unit {0}) → Turn W → Type 0
Spoken result t = result ≡ ok tt → IsSpoken t.messages

module _ {W : Type 0} (cfg : Settings) (svc : Services W) where
  answered-Next :
      (sent : List Message) (r : Received) (t : Turn W)
      → Next cfg svc (λ t. Unit) Spoken (answered cfg svc sent r t)
  unfolding answered stored_round
  answered-Next sent r t = elim (Bool-cases (wants_tools cfg svc r)) [
    | inl e ↦ rw e tt
    | inr e ↦ rw e (elim (Bool-cases (is_empty r.assistant_buf)) [
      | inl empty ↦ rw empty (λ h. cc)
      | inr spoken ↦ rw spoken (λ h. record {
        earlier = t.messages;
        spoken = assistant_turn r;
        at_end = refl;
        by_assistant = refl;
        with_text = ground (arith, is_empty_iff r.assistant_buf);
      })
    ])
  ]

  -- A turn that ends without an error leaves a history whose last message is an answer of the assistant
  -- with a text that is not empty.
  pub run_conversation-IsSpoken :
      (ms : List Message) (w : W)
      → (run_conversation cfg svc ms w).0 ≡ ok tt
      → IsSpoken (run_conversation cfg svc ms w).1.messages
  unfolding run_conversation
  run_conversation-IsSpoken ms w =
      run_rounds-induct cfg svc (λ t. Unit) Spoken
        (λ t h.
          round-induct cfg svc (Next cfg svc (λ t. Unit) Spoken) t (λ e w h. cc)
            (λ sent r w. answered-Next sent r (record t { world = w })))
        (λ t h e. cc) max_tool_rounds (preflight cfg svc (start_turn cfg svc ms w)) tt
