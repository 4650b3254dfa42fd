-- ===== src/Tools/Stage/Effects.antt =====
-- What the stage tools leave in state.yaml.
use narrative_ai_agent.Prelude.{
  ◌≡◌, refl, sym, ap, ◌∙◌, inl, inr, List, [], ◌∷◌, Result, ok, arith, Bool-cases, Result-cases,
}
use narrative_ai_agent.Prelude.Text.{Text, is_empty_iff, text_eq, text_eq_iff}
use narrative_ai_agent.Staging.Days.{StagingFile}
use narrative_ai_agent.Repositories.{Store, StateSnapshot, ◌>>=◌, load_state, save_state, update}
use narrative_ai_agent.Tools.Stage.{
  update_stage_tool, advance_timeline_tool, apply_pending_stage_tool,
}

-- Two stores with the same state of every world.
abbrev pub SameStates : Store → Store → Type 0
SameStates s t = (v : Text) → t.states v ≡ s.states v

update_same :
    {A : Type 0} (f : Text → A) (w : Text) (a : A) → f w ≡ a → (v : Text) → update f w a v ≡ f v
update_same f w a h v = elim (Bool-cases (text_eq v w)) [
  | inl e ↦ rw e (sym h ∙ ap f (sym ((text_eq_iff v w).0 e)))
  | inr e ↦ rw e
]

module _ (unmarshal : Text → Result Text StagingFile) (files : Text → Result Text Text) where
  -- `UpdateStage` never records the transition: whatever it answers, true included, the state of
  -- every world, its pending stage included, is what it was.
  pub update_stage_tool-SameStates :
      (w next_id : Text) (s : Store)
      → SameStates s (update_stage_tool unmarshal files w next_id s).1
  unfolding update_stage_tool load_state save_state ◌>>=◌
  update_stage_tool-SameStates w next_id s v = elim (Result-cases (s.states w)) [
    | inr (x, e) ↦ ground arith
    | inl (snap, e) ↦ ground (arith, update_same s.states w (ok snap) e v)
  ]

  -- `AdvanceTimeline` never moves the cursor of any world in the same way.
  advance_timeline_tool-SameStates :
      (w : Text) (s : Store) → SameStates s (advance_timeline_tool unmarshal files w s).1
  unfolding advance_timeline_tool load_state save_state ◌>>=◌
  advance_timeline_tool-SameStates w s v = elim (Result-cases (s.states w)) [
    | inr (x, e) ↦ ground arith
    | inl (snap, e) ↦ ground (arith, update_same s.states w (ok snap) e v)
  ]

  -- `ApplyPendingStage` does nothing to a world that has nothing pending.
  apply_pending_stage_tool-idle :
      (w : Text) (s : Store) (snap : StateSnapshot)
      → s.states w ≡ ok snap
      → snap.stage.next ≡ []
      → (apply_pending_stage_tool unmarshal files w s).1 ≡ s
  unfolding apply_pending_stage_tool load_state ◌>>=◌
  apply_pending_stage_tool-idle w s snap e n = ground (arith, is_empty_iff snap.stage.next)

-- A call of one of the three tools.
pub data StageCall : Type 0 where
  update_call : Text → StageCall
  advance_call : StageCall
  apply_call : StageCall

module _ (unmarshal : Text → Result Text StagingFile) (files : Text → Result Text Text) where
  unfoldable pub run_call : StageCall → Text → Store → Store
  run_call (update_call next_id) w s = (update_stage_tool unmarshal files w next_id s).1
  run_call advance_call w s = (advance_timeline_tool unmarshal files w s).1
  run_call apply_call w s = (apply_pending_stage_tool unmarshal files w s).1

  unfoldable pub run_calls : List StageCall → Text → Store → Store
  unfolding run_call
  run_calls [] w s = s
  run_calls (c ∷ cs) w s = run_calls cs w (run_call c w s)

  run_call-SameStates :
      (c : StageCall) (w : Text) (s : Store) (snap : StateSnapshot)
      → s.states w ≡ ok snap
      → snap.stage.next ≡ []
      → SameStates s (run_call c w s)
  unfolding run_call
  run_call-SameStates (update_call next_id) w s snap e n =
      update_stage_tool-SameStates unmarshal files w next_id s
  run_call-SameStates advance_call w s snap e n =
      advance_timeline_tool-SameStates unmarshal files w s
  run_call-SameStates apply_call w s snap e n =
      λ v. ap (λ t. t.states v) (apply_pending_stage_tool-idle unmarshal files w s snap e n)

  -- No sequence of the stage tools ever moves a world that has nothing pending: after any calls of
  -- `UpdateStage`, `AdvanceTimeline` and `ApplyPendingStage` on it, the state of every world is what
  -- it was.
  pub run_calls-SameStates :
      (cs : List StageCall) (w : Text) (s : Store) (snap : StateSnapshot)
      → s.states w ≡ ok snap
      → snap.stage.next ≡ []
      → SameStates s (run_calls cs w s)
  unfolding run_calls
  run_calls-SameStates [] w s snap e n = λ v. refl
  run_calls-SameStates (c ∷ cs) w s snap e n =
      let first = run_call-SameStates c w s snap e n in
      let rest = run_calls-SameStates cs w (run_call c w s) snap (first w ∙ e) n in
      λ v. rest v ∙ first v
