-- ===== src/Conversation/Turn/Transcript.antt =====
-- What a turn appends to the history, as a grammar of its messages.
use narrative_ai_agent.Prelude.{
  ◌≡◌, refl, sym, ap, subst, ◌∙◌, ℕ, zero, suc, ◌≤◌, ◌<◌, List, [], ◌∷◌, ◌++◌, if◌then◌else◌,
  Result, err, arith, append_assoc, append-nil, leb, Bool-cases, inl, inr,
}
use narrative_ai_agent.Prelude.Text.{Text, is_empty}
use narrative_ai_agent.Conversation.{tool, Message, message, ToolCall}
use narrative_ai_agent.Conversation.Stream.{Received}
use narrative_ai_agent.Conversation.Services.{
  Settings, Services, Turn, ReplyError, Step, again, stop, assistant_turn, nudge,
}
use narrative_ai_agent.Conversation.Turn.Rounds.{round-induct}
use narrative_ai_agent.Conversation.Turn.{
  execute_tools, tools_round, stored_round, answered, round, run_rounds, wants_tools,
}

-- One tool message for each call, in order, with the id and the name of the call.
pub data IsAnswered : List ToolCall → List Message → Type 0 where
  no_calls : IsAnswered [] []
  answer :
      (tc : ToolCall) (body : Text) {calls : List ToolCall} {results : List Message}
      → IsAnswered calls results
      → IsAnswered
          (tc ∷ calls)
          (record (message tool body) { name = tc.function.name; tool_call_id = tc.id } ∷ results)

-- The rounds without text, after a round that received `r`.
abbrev silent_rounds : Received → ℕ → ℕ
silent_rounds r n = if is_empty r.assistant_buf then suc n else 0

-- The messages of at most `k` rounds, after `n` rounds that had tool calls and no text. After three
-- of those comes the nudge, and only then.
pub data IsTranscript : ℕ → ℕ → List Message → Type 0 where
  ended : {k n : ℕ} → IsTranscript k n []
  replied : {k n : ℕ} (r : Received) → IsTranscript (suc k) n (assistant_turn r ∷ [])
  used_tools :
      {k n : ℕ} (r : Received) {results rest : List Message}
      → IsAnswered r.tool_calls results
      → silent_rounds r n < 3
      → IsTranscript k (silent_rounds r n) rest
      → IsTranscript (suc k) n (assistant_turn r ∷ results ++ rest)
  was_nudged :
      {k n : ℕ} (r : Received) {results rest : List Message}
      → IsAnswered r.tool_calls results
      → 3 ≤ silent_rounds r n
      → IsTranscript k 0 rest
      → IsTranscript (suc k) n (assistant_turn r ∷ results ++ (nudge ∷ rest))

-- Both copies of the history have grown by the same messages.
pub record IsGrown {W : Type 0} (t t' : Turn W) (new : List Message) : Type 0 where
  pub messages_grown : t'.messages ≡ t.messages ++ new
  pub history_grown : t'.history ≡ t.history ++ new

-- At most `k` rounds lead from `t` to `t'`.
pub record IsRun {W : Type 0} (k : ℕ) (t t' : Turn W) : Type 0 where
  pub new : List Message
  pub grown : IsGrown t t' new
  pub transcript : IsTranscript k t.tool_only_rounds new

-- A round leads from `t` to `t'`, and any transcript from there goes on from it.
record IsContinued {W : Type 0} (t t' : Turn W) : Type 0 where
  first : List Message
  grown : IsGrown t t' first
  go_on :
      {k : ℕ} {rest : List Message}
      → IsTranscript k t'.tool_only_rounds rest
      → IsTranscript (suc k) t.tool_only_rounds (first ++ rest)

IsStep : {W : Type 0} → Turn W → Step W → Type 0
IsStep t (again t') = IsContinued t t'
IsStep t (stop result t') = (k : ℕ) → IsRun (suc k) t t'

IsGrown-by_nothing : {W : Type 0} (t : Turn W) (w : W) → IsGrown t (record t { world = w }) []
IsGrown-by_nothing t w = record {
  messages_grown = sym (append-nil t.messages);
  history_grown = sym (append-nil t.history);
}

IsGrown-trans :
    {W : Type 0} (t t' t'' : Turn W) {new last : List Message}
    → IsGrown t t' new
    → IsGrown t' t'' last
    → IsGrown t t'' (new ++ last)
IsGrown-trans t t' t'' {new} {last} a b = record {
  messages_grown =
      b.messages_grown ∙ ap (λ ms. ms ++ last) a.messages_grown ∙ append_assoc t.messages new last;
  history_grown =
      b.history_grown ∙ ap (λ ms. ms ++ last) a.history_grown ∙ append_assoc t.history new last;
}

-- Only the world of the turn has changed.
IsRun-of_world :
    {W : Type 0} {k : ℕ} (t t' : Turn W) (w : W)
    → IsRun k (record t { world = w }) t'
    → IsRun k t t'
IsRun-of_world t t' w h = record {
  new = h.new;
  grown = record { messages_grown = h.grown.messages_grown; history_grown = h.grown.history_grown };
  transcript = h.transcript;
}

IsStep-of_world :
    {W : Type 0} (t : Turn W) (w : W) (s : Step W) → IsStep (record t { world = w }) s → IsStep t s
unfolding IsStep
IsStep-of_world t w (again t') h = record {
  first = h.first;
  grown = record { messages_grown = h.grown.messages_grown; history_grown = h.grown.history_grown };
  go_on = λ rest. h.go_on rest;
}
IsStep-of_world t w (stop result t') h = λ k. IsRun-of_world t t' w (h k)

IsStopped :
    {W : Type 0} (t : Turn W) (w : W) (result : Result ReplyError (Unit {0}))
    → IsStep t (stop result (record t { world = w }))
unfolding IsStep
IsStopped t w result k = record { new = []; grown = IsGrown-by_nothing t w; transcript = ended }

module _ {W : Type 0} (cfg : Settings) (svc : Services W) where
  execute_tools-IsAnswered :
      (calls : List ToolCall) (w : W) → IsAnswered calls (execute_tools cfg svc calls w).0
  unfolding execute_tools
  execute_tools-IsAnswered [] w = no_calls
  execute_tools-IsAnswered (tc ∷ tcs) w =
      answer tc (svc.dispatch tc w).0 (execute_tools-IsAnswered tcs (svc.dispatch tc w).1)

  stored_round-IsRun :
      (k : ℕ) (sent : List Message) (r : Received) (t : Turn W)
      → IsRun (suc k) t (stored_round cfg svc sent r t)
  unfolding stored_round
  stored_round-IsRun k sent r t = record {
    new = assistant_turn r ∷ [];
    grown = record { messages_grown = refl; history_grown = refl };
    transcript = replied r;
  }

  tools_round-IsContinued :
      (sent : List Message) (r : Received) (t : Turn W)
      → IsContinued t (tools_round cfg svc r (stored_round cfg svc sent r t))
  unfolding tools_round stored_round
  tools_round-IsContinued sent r t =
      let stored = stored_round cfg svc sent r t in
      let results = (execute_tools cfg svc r.tool_calls stored.world).0 in
      let answers : IsAnswered r.tool_calls results =
        execute_tools-IsAnswered r.tool_calls stored.world in
      elim (Bool-cases (leb 3 (silent_rounds r t.tool_only_rounds))) [
        | inl stuck ↦ rw stuck (record {
          first = assistant_turn r ∷ results ++ (nudge ∷ []);
          grown = record {
            messages_grown = append_assoc t.messages (assistant_turn r ∷ []) _;
            history_grown = append_assoc t.history (assistant_turn r ∷ []) _;
          };
          go_on = λ {k} {rest} h.
              subst (λ ms. IsTranscript (suc k) t.tool_only_rounds (assistant_turn r ∷ ms))
                (sym (append_assoc results (nudge ∷ []) rest))
                (was_nudged r answers (ground arith) h);
        })
        | inr moving ↦ rw moving (record {
          first = assistant_turn r ∷ results;
          grown = record {
            messages_grown = append_assoc t.messages (assistant_turn r ∷ []) _;
            history_grown = append_assoc t.history (assistant_turn r ∷ []) _;
          };
          go_on = λ {k} {rest} h. used_tools r answers (ground arith) h;
        })
      ]

  answered-IsStep :
      (sent : List Message) (r : Received) (t : Turn W) → IsStep t (answered cfg svc sent r t)
  unfolding answered IsStep
  answered-IsStep sent r t = elim (Bool-cases (wants_tools cfg svc r)) [
    | inl e ↦ rw e (tools_round-IsContinued sent r t)
    | inr e ↦ rw e (elim (Bool-cases (is_empty r.assistant_buf)) [
      | inl empty ↦ rw empty (λ k. stored_round-IsRun k sent r t)
      | inr spoken ↦ rw spoken (λ k. stored_round-IsRun k sent r t)
    ])
  ]

  round-IsStep : (t : Turn W) → IsStep t (round cfg svc t)
  round-IsStep t =
      round-induct cfg svc (IsStep t) t (λ e w. IsStopped t w (err e))
        (λ sent r w. IsStep-of_world t w _ (answered-IsStep sent r (record t { world = w })))

  IsRun-step :
      (k : ℕ) (t : Turn W) (s : Step W)
      → IsStep t s
      → ((t' : Turn W) → IsRun k t' (run_rounds cfg svc k t').1)
      → IsRun
          (suc k)
          t
          (elim s as (λ s. Result ReplyError (Unit {0}) × Turn W) [
            | again t' ↦ run_rounds cfg svc k t'
            | stop result t' ↦ (result, t')
          ]).1
  unfolding IsStep
  IsRun-step k t (again t') h later = record {
    new = h.first ++ (later t').new;
    grown = IsGrown-trans t t' _ h.grown (later t').grown;
    transcript = h.go_on (later t').transcript;
  }
  IsRun-step k t (stop result t') h later = h k

  -- Whatever the services answer, at most `k` rounds append a transcript of at most `k` rounds to both
  -- copies of the history.
  pub run_rounds-IsRun : (k : ℕ) (t : Turn W) → IsRun k t (run_rounds cfg svc k t).1
  unfolding run_rounds
  run_rounds-IsRun zero t = record {
    new = [];
    grown = IsGrown-by_nothing t t.world;
    transcript = ended;
  }
  run_rounds-IsRun (suc k) t =
      IsRun-step k t (round cfg svc t) (round-IsStep t) (λ t'. run_rounds-IsRun k t')
