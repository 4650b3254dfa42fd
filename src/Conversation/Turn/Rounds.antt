-- ===== src/Conversation/Turn/Rounds.antt =====
-- Reasoning about the rounds: what holds of every way in which a round can end, and of a whole run.
use narrative_ai_agent.Prelude.{
  ℕ, zero, suc, List, Result, err, Result-cases, Option-cases, inl, inr,
}
use narrative_ai_agent.Conversation.{Message}
use narrative_ai_agent.Conversation.Stream.{Received, receive, nothing_received}
use narrative_ai_agent.Conversation.Services.{
  Settings, Services, Turn, ReplyError, context_failed, stream_failed, too_many_rounds, Step, again,
  stop,
}
use narrative_ai_agent.Conversation.Turn.{answered, streamed_round, round, run_rounds}

module _ {W : Type 0} (cfg : Settings) (svc : Services W) where
  module _ (Good : Step W → Type 0) (t : Turn W)
      (fails : (e : ReplyError) (w : W) → Good (stop (err e) (record t { world = w })))
      (answers : (sent : List Message) (r : Received) (w : W)
        → Good (answered cfg svc sent r (record t { world = w }))) where
    streamed_round-induct :
        (sent : List Message) (w : W) → Good (streamed_round cfg svc sent (record t { world = w }))
    unfolding streamed_round
    streamed_round-induct sent w =
        let ((chunks, failure), w') = svc.stream sent w in
        let (received, w'') = receive svc.on_delta chunks nothing_received w' in
        elim (Result-cases received) [
          | inl (r, e) ↦
              rw (streamed_round, e)
                (elim (Option-cases failure) [
                  | inl n ↦ rw n (answers sent r w'')
                  | inr (x, n) ↦ rw n (fails (stream_failed x) w'')
                ])
          | inr (x, e) ↦ rw (streamed_round, e) (fails (stream_failed x) w'')
        ]

    -- A round fails, with only the world changed, or a whole stream is answered.
    pub round-induct : Good (round cfg svc t)
    unfolding round
    round-induct =
        let (context, w) = svc.build_context t.world in
        elim (Result-cases context) [
          | inl ((system_msg, world_msg), e) ↦ rw (round, e) (streamed_round-induct _ w)
          | inr (x, e) ↦ rw (round, e) (fails (context_failed x) w)
        ]

  module _ (P : Turn W → Type 0) (Q : Result ReplyError (Unit {0}) → Turn W → Type 0) where
    -- The property that a round has to establish.
    abbrev pub Next : Step W → Type 0
    Next (again t) = P t
    Next (stop result t) = Q result t

    -- What the rounds keep holds of the run.
    pub run_rounds-induct :
        ((t : Turn W) → P t → Next (round cfg svc t))
        → ((t : Turn W) → P t → Q (err too_many_rounds) t)
        → (k : ℕ) (t : Turn W) → P t
        → Q (run_rounds cfg svc k t).0 (run_rounds cfg svc k t).1
    unfolding run_rounds
    run_rounds-induct step over zero t h = over t h
    run_rounds-induct step over (suc k) t h =
        go (round cfg svc t) (step t h) (λ t' h'. run_rounds-induct step over k t' h')
      where
        after : Step W → Result ReplyError (Unit {0}) × Turn W
        after (again t') = run_rounds cfg svc k t'
        after (stop result t') = (result, t')

        go :
            (s : Step W)
            → Next s
            → ((t' : Turn W) → P t' → Q (run_rounds cfg svc k t').0 (run_rounds cfg svc k t').1)
            → Q (after s).0 (after s).1
        go (again t') h later = later t' h
        go (stop result t') h later = h
