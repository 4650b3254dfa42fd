-- ===== src/Tools/Stage.antt =====
-- internal/usecase/tools/files/stage.go over internal/repository/yaml/staging_yaml.go: the tools that
-- move a world through its story graph. The bodies of the staging.yaml files and the YAML library
-- are parameters.
pub mod Effects
use narrative_ai_agent.Prelude.{
  ◌≡◌, Bool, true, false, not, Option, none, some, List, [], ◌∷◌, if◌then◌else◌, Result, ok, err,
  ◌>>=◌ as ◌>>>◌,
}
use narrative_ai_agent.Prelude.Int.{ℤ, eqb_ℤ}
use narrative_ai_agent.Prelude.Text.{Text, is_empty, text_eq}
use narrative_ai_agent.Staging.Days.{StagingFile}
use narrative_ai_agent.Staging.{
  Staging, StageRuntime, StagingError, load, update_stage, advance_timeline, apply_pending,
  pending_runtime,
}
use narrative_ai_agent.Repositories.{
  Store, StateSnapshot, Action, Error, of_staging, empty_world, empty_next, pure, raise, lift,
  ◌>>=◌, ◌>>◌, load_state, save_state,
}

wrapped : {A : Type 0} → Result StagingError A → Result Error A
wrapped (ok a) = ok a
wrapped (err e) = err (of_staging e)

module _ (unmarshal : Text → Result Text StagingFile) (files : Text → Result Text Text) where
  -- `StagingYaml`: each call loads the graph of the world at the given pointer, and drops it.
  load_graph : Text → StageRuntime → Result StagingError Staging
  load_graph world rt = load unmarshal (files world) rt

  repo_update_stage : Text → Text → StageRuntime → Result StagingError Bool
  unfolding load_graph
  repo_update_stage world next_id rt = load_graph world rt >>> λ s.
      update_stage s next_id >>> λ s'. ok (not (text_eq s'.next s.next))

  repo_advance_timeline : Text → StageRuntime → Result StagingError Bool
  unfolding load_graph
  repo_advance_timeline world rt = load_graph world rt >>> λ s.
      advance_timeline s >>> λ s'. ok (not (eqb_ℤ s'.timeline_index s.timeline_index))

  repo_apply_pending : Text → StageRuntime → Result StagingError StageRuntime
  unfolding load_graph
  repo_apply_pending world rt =
      load_graph world rt >>> λ s. apply_pending s >>> λ s'. ok (pending_runtime s')

  save_stage : Text → StateSnapshot → StageRuntime → Action (Unit {0})
  save_stage world snap rt = save_state world (record snap { stage = rt })

  unfoldable pub update_stage_tool : Text → Text → Action Bool
  unfolding repo_update_stage save_stage wrapped
  update_stage_tool world next_id =
      if is_empty world
      then raise empty_world
      else if is_empty next_id
      then raise empty_next
      else do
        snap ← load_state world
        moved ← lift (wrapped (repo_update_stage world next_id snap.stage))
        if moved then (do save_stage world snap snap.stage; pure true) else pure false

  unfoldable pub advance_timeline_tool : Text → Action Bool
  unfolding repo_advance_timeline save_stage wrapped
  advance_timeline_tool world = if is_empty world then raise empty_world else do
    snap ← load_state world
    moved ← lift (wrapped (repo_advance_timeline world snap.stage))
    if moved then (do save_stage world snap snap.stage; pure true) else pure false

  unfoldable pub apply_pending_stage_tool : Text → Action (Unit {0})
  unfolding repo_apply_pending save_stage wrapped
  apply_pending_stage_tool world = if is_empty world then raise empty_world else do
    snap ← load_state world
    if is_empty snap.stage.next
        then pure tt
        else do rt ← lift (wrapped (repo_apply_pending world snap.stage)); save_stage world snap rt
