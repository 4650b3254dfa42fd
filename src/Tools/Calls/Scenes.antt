-- ===== src/Tools/Calls/Scenes.antt =====
-- `dispatchOneTool` of internal/usecase/gm.go: the calls on the files of a world, and `EndOfDay`.
use narrative_ai_agent.Prelude.{
  Bool, false, not, ◌&&◌, Option, none, some, List, [], ◌∷◌, ◌++◌, if◌then◌else◌, keep, map, is_nil,
  Result, ok, err,
}
use narrative_ai_agent.Prelude.Int.{ℤ, pos, eqb_ℤ}
use narrative_ai_agent.Prelude.Text.{Text, lit, is_empty, trim_space, text_eq}
use narrative_ai_agent.Prelude.Find.{split_on}
use narrative_ai_agent.Repositories.{invalidate}
use narrative_ai_agent.Session.{SessionContext, start}
use narrative_ai_agent.Tools.Archive.{archive_chronicle_day}
use narrative_ai_agent.Tools.Stage.{apply_pending_stage_tool}
use narrative_ai_agent.Tools.State.{StateUpdate, update_state}
use narrative_ai_agent.Tools.World.{leave}
use narrative_ai_agent.Tools.Scene.{end_scene, rotate_plan}
use narrative_ai_agent.Tools.Maintain.{
  MaintainError, maintain_lore, maintain_npcs, maintain_character_memory,
}
use narrative_ai_agent.Tools.Calls.{
  text_value, int_value, bool_value, array_value, Fields, field, to_text, to_int, to_bool, to_texts,
  Refusal, Payload, plain, fields, Do, done, ◌>>=◌, ◌>>◌, attempt, on_store, needs, current_world,
  is_full, stable, Backend,
}

module _ (b : Backend) where
  unfoldable pub after_stage : Result Refusal (Unit {0}) → Do (Unit {0})
  unfolding on_store invalidate done
  after_stage (ok u) = on_store (invalidate (lit "end_day_stage_transition"))
  after_stage (err e) = done tt

  abbrev or_touched : Result MaintainError (List Text) → List Text
  or_touched (ok touched) = touched
  or_touched (err e) = []

  unfoldable pub maintain_profiles : Text → Do (Unit {0})
  unfolding maintain_npcs on_store invalidate done
  maintain_profiles world w =
      let (r, s) = maintain_npcs b.maintenance world w.npcs in
      (if is_nil (or_touched r)
          then done tt
          else on_store (invalidate (lit "end_day_maintain_npc")))
        (record w { npcs = s })

  abbrev or_unchanged : Result MaintainError Bool → Bool
  or_unchanged (ok rewritten) = rewritten
  or_unchanged (err e) = false

  unfoldable pub maintain_memory : Text → Result Refusal SessionContext → Do (Unit {0})
  unfolding maintain_character_memory on_store invalidate done
  maintain_memory world (err e) w = (ok tt, w)
  maintain_memory world (ok sc) w =
      let (r, s) =
        maintain_character_memory b.maintenance world sc.character (w.store.chronicles world)
          w.characters in
      if is_empty sc.character
      then (ok tt, w)
      else (if or_unchanged r
            then on_store (invalidate (lit "end_day_maintain_memory"))
            else done tt)
          (record w { characters = s })

  -- `EndOfDay`, which answers no error.
  unfoldable pub end_of_day : Text → Do (Unit {0})
  unfolding attempt on_store apply_pending_stage_tool after_stage maintain_profiles maintain_memory
      start done ◌>>=◌
  end_of_day world = if is_empty world then done tt else do
    attempt (on_store (apply_pending_stage_tool b.read_staging b.staging_files world)) after_stage
    maintain_profiles world
    attempt (on_store start) (maintain_memory world)

  unfoldable pub call_end_day : Fields → Do Payload
  unfolding field to_int needs current_world end_of_day on_store archive_chronicle_day done ◌>>=◌
  call_end_day args = do
    needs
        (not (eqb_ℤ (to_int (field (lit "day") args)) (pos 0))
          && is_full (to_text (field (lit "summary") args)))
        (lit "end_day requires day and summary")
    world ← current_world
    end_of_day world
    on_store (
        archive_chronicle_day b.hooks world (to_int (field (lit "day") args))
          (to_text (field (lit "summary") args)))
    done (plain (lit "archived"))

  abbrev or_nil : List Text → Option (List Text)
  or_nil [] = none
  or_nil (t ∷ ts) = some (t ∷ ts)

  -- The names of `permanent_party`.
  unfoldable party_of : Text → Option (List Text)
  unfolding split_on trim_space
  party_of raw =
      if is_empty raw then none else or_nil (keep is_full (map trim_space (split_on b',' raw)))

  unfoldable pub forget_chats : Do (Unit {0})
  forget_chats w = (ok tt, record w { chats = [] })

  -- Without a party the session is started, and nothing is done with it.
  unfoldable pub call_end_scene : Fields → Do Payload
  unfolding field current_world party_of attempt start end_scene on_store forget_chats invalidate
      done ◌>>=◌
  call_end_scene args = do
    world ← current_world
    if is_full (to_text (field (lit "permanent_party") args))
        then done tt
        else attempt (on_store start) (λ r. done tt)
    res ←
        on_store (
          end_scene (map b.to_lower) world
            (party_of (to_text (field (lit "permanent_party") args))))
    forget_chats
    on_store (invalidate (lit "end_scene"))
    done (
        fields (
          (lit "status", text_value (lit "scene_closed"))
          ∷ (lit "kept_npcs", array_value (map (λ n. some n) res.kept_npcs))
          ∷ (lit "pruned_npcs_len", int_value (pos res.pruned_npcs_len))
          ∷ (lit "hint", text_value (lit "next turn rebuilds the scene around the kept roster"))
          ∷ []))

  unfoldable pub call_maintain_lore : Do Payload
  unfolding current_world on_store maintain_lore done ◌>>=◌
  call_maintain_lore = do
    world ← current_world
    rewritten ← on_store (maintain_lore b.maintenance.summarize_lore world)
    done (fields ((lit "compacted", bool_value rewritten) ∷ []))

  -- The update of a scene on the day of the snapshot; neither a world nor a location is given.
  unfoldable pub scene_update : Bool → Text → Option (List Text) → List Text → ℤ → StateUpdate
  scene_update in_flight moment npcs events day = record {
    world = [];
    day = day;
    in_flight = in_flight;
    location = [];
    moment = moment;
    npcs = npcs;
    append_events = events;
  }

  unfoldable pub run_scene_update : Bool → Text → Option (List Text) → List Text → Do (Unit {0})
  unfolding scene_update on_store update_state
  run_scene_update in_flight moment npcs events w =
      on_store
        (update_state (map b.to_lower) b.render (scene_update in_flight moment npcs events w.day)) w

  abbrev pub recorded : Text → List Text → Payload
  recorded moment npcs = stable (
      (lit "status", text_value (lit "recorded"))
      ∷ (lit "delta", text_value (lit "локация/момент обновлены: " ++ moment))
      ∷ (lit "npcs_now", array_value (map (λ n. some n) npcs))
      ∷ [])

  unfoldable pub call_update_state : Fields → Do Payload
  unfolding field to_texts needs run_scene_update done ◌>>=◌
  call_update_state args =
      let moment = to_text (field (lit "moment") args) in
      let npcs = to_texts (field (lit "npcs") args) in
      do
        needs (is_full moment) (lit "update_state requires moment")
        run_scene_update (to_bool (field (lit "in_flight") args)) moment (some npcs)
            (to_texts (field (lit "events") args))
        done (recorded moment npcs)

  unfoldable pub call_rotate_plan : Fields → Do Payload
  unfolding field to_texts current_world on_store rotate_plan done ◌>>=◌
  call_rotate_plan args = do
    world ← current_world
    on_store (rotate_plan world (to_texts (field (lit "events") args)))
    done (plain (lit "plan rotated"))

  -- `ResetConversation` of the chat with this name.
  unfoldable pub forget_chat : Text → Do (Unit {0})
  unfolding text_eq
  forget_chat chat w = (ok tt, record w { chats = keep (λ c. not (text_eq c chat)) w.chats })

  unfoldable pub call_leave_world : Fields → Do Payload
  unfolding field start on_store leave forget_chat done ◌>>=◌
  call_leave_world args = do
    sc ← on_store start
    on_store (
        leave b.to_lower b.show_int sc.world (to_text (field (lit "to_world") args))
          (to_text (field (lit "skip_note") args)) sc.character)
    forget_chat sc.character
    done (plain (lit "world switched"))
