-- ===== src/Tools/Calls/People.antt =====
-- `dispatchOneTool` of internal/usecase/gm.go: the calls on the NPCs and on the files of the character.
use narrative_ai_agent.Prelude.{
  ℕ, ◌-◌, ltb, Bool, true, false, not, Option, none, some, [], ◌∷◌, ◌++◌, ok,
}
use narrative_ai_agent.Prelude.Text.{Text, lit, trim_space}
use narrative_ai_agent.Inventory.{Item}
use narrative_ai_agent.Repositories.{update}
use narrative_ai_agent.Session.{start}
use narrative_ai_agent.Tools.Npc.{NewProfile, SearchResult, create_npc, update_npc, search}
use narrative_ai_agent.Tools.Character.{Call, append_inventory_item, set_currency_tool}
use narrative_ai_agent.Tools.Calls.{
  text_value, int_value, bool_value, Fields, field, to_text, to_int, to_bool, to_texts, of_npcs,
  Payload, Do, done, ◌>>=◌, ◌>>◌, as_refusal, on_store, on_npcs, on_characters, needs,
  current_world, is_full, stable, Backend,
}

module _ (b : Backend) where
  unfoldable pub run_create_npc : Text → NewProfile → Do (Unit {0})
  unfolding on_npcs create_npc
  run_create_npc world spec =
      on_npcs (create_npc b.to_lower b.equal_fold b.read_roster b.write_roster true world spec)

  -- The fields of the call that become the profile; its file is not read by `Create`.
  unfoldable pub npc_spec : Fields → NewProfile
  unfolding field to_texts
  npc_spec args = record {
    display_name = to_text (field (lit "display_name") args);
    nicknames = to_texts (field (lit "nicknames") args);
    temperament = to_text (field (lit "temperament") args);
    relations = to_text (field (lit "relations") args);
    abilities = to_texts (field (lit "abilities") args);
    personal_memory = [];
    current_status = [];
    critical_knowledge = [];
    last_update = [];
  }

  unfoldable pub call_create_npc : Fields → Do Payload
  unfolding field npc_spec current_world run_create_npc done ◌>>=◌
  call_create_npc args = do
    world ← current_world
    run_create_npc world (npc_spec args)
    done (
        stable (
          (lit "status", text_value (lit "created"))
          ∷ (lit "display_name", text_value (to_text (field (lit "display_name") args)))
          ∷ (lit "file", text_value (to_text (field (lit "file_slug") args)))
          ∷ (lit "in_scene_now", bool_value false)
          ∷ (
            lit "hint",
            text_value (lit "NPC profile is on disk; add to scene with update_state if needed"),
          )
          ∷ []))

  -- A call on the files of the active character.
  unfoldable pub with_character : {A : Type 0} → (Text → Call A) → Do A
  unfolding start on_store on_characters ◌>>=◌
  with_character act = do sc ← on_store start; on_characters (act sc.character)

  abbrev pub appended : Text → Text → Payload
  appended file section = stable (
      (lit "status", text_value (lit "appended"))
      ∷ (lit "file", text_value file)
      ∷ (lit "section", text_value section)
      ∷ [])

  -- `update_soul`, `update_skill` and `update_memory`, by their names, their files, the end of an error and
  -- their calls.
  unfoldable pub call_append :
      Text → Text → Text → (Text → Text → Text → Call Bool) → Fields → Do Payload
  unfolding field trim_space needs with_character done ◌>>=◌
  call_append name file missing act args =
      let section = to_text (field (lit "section") args) in
      let value = to_text (field (lit "append") args) in
      do
        needs (is_full section) (name ++ lit ": section required")
        needs (is_full (trim_space value)) (name ++ missing)
        with_character (λ character. act character section value)
        done (appended file section)

  unfoldable pub item_of : Text → Fields → Item
  unfolding field
  item_of name args = record {
    name = name;
    description = to_text (field (lit "description") args);
    equip = to_bool (field (lit "equip") args);
    special = to_text (field (lit "special") args);
  }

  unfoldable pub call_update_inventory : Fields → Do Payload
  unfolding field trim_space needs with_character append_inventory_item item_of done ◌>>=◌
  call_update_inventory args =
      let name = trim_space (to_text (field (lit "name") args)) in
      let kind = to_text (field (lit "type") args) in
      do
        needs (is_full name) (lit "update_inventory: name required")
        needs (is_full kind) (lit "update_inventory: type required")
        with_character (λ character. append_inventory_item character (item_of name args))
        done (
            stable (
              (lit "status", text_value (lit "recorded"))
              ∷ (lit "name", text_value name)
              ∷ (lit "type", text_value kind)
              ∷ []))

  abbrev pub named_answer : Text → Fields → Text → Payload
  named_answer status more name =
      stable ((lit "status", text_value status) ∷ (lit "name", text_value name) ∷ more)

  -- The three calls that need a name alone.
  unfoldable pub call_named : Text → Text → Fields → (Text → Text → Call Bool) → Fields → Do Payload
  unfolding field trim_space needs with_character done ◌>>=◌
  call_named tool status more act args =
      let name = trim_space (to_text (field (lit "name") args)) in
      do
        needs (is_full name) (tool ++ lit ": name required")
        with_character (λ character. act character name)
        done (named_answer status more name)

  unfoldable pub run_update_npc : Text → Text → Text → Text → Do (Unit {0})
  unfolding on_npcs update_npc
  run_update_npc world npc section value =
      on_npcs (
        update_npc b.to_lower b.equal_fold b.read_roster b.write_roster true world npc section
          value)

  unfoldable pub call_update_npc : Fields → Do Payload
  unfolding field trim_space needs current_world run_update_npc done ◌>>=◌
  call_update_npc args =
      let npc = to_text (field (lit "npc") args) in
      let section = to_text (field (lit "section") args) in
      let value = to_text (field (lit "append") args) in
      do
        needs (is_full npc) (lit "update_npc: npc name required")
        needs (is_full section) (lit "update_npc: section required")
        needs (is_full (trim_space value))
            (lit "update_npc: append text required (no empty updates)")
        world ← current_world
        run_update_npc world npc section value
        done (
            stable (
              (lit "status", text_value (lit "appended"))
              ∷ (lit "npc", text_value npc)
              ∷ (lit "section", text_value section)
              ∷ []))

  abbrev is_recent : ℕ → ℕ → Option ℕ → Bool
  is_recent now window none = false
  is_recent now window (some turn) = ltb (now - turn) window

  unfoldable pub within_rate : Text → Do (Unit {0})
  unfolding needs
  within_rate query w =
      needs (not (is_recent w.turn_counter w.rate_window (w.searches query)))
        (lit "search_npc: rate-limited (same query recently)") w

  unfoldable pub search_in : Text → Text → Do SearchResult
  unfolding search
  search_in world query w = (
    as_refusal of_npcs
        (search b.to_lower b.equal_fold b.read_roster b.write_roster true world query w.npcs),
    w,
  )

  unfoldable pub note_search : Text → Do (Unit {0})
  note_search query w =
      (ok tt, record w { searches = update w.searches query (some w.turn_counter) })

  unfoldable pub call_search_npc : Fields → Do Payload
  unfolding field trim_space needs within_rate current_world search_in note_search done ◌>>=◌
  call_search_npc args =
      let query = trim_space (to_text (field (lit "query") args)) in
      do
        needs (is_full query) (lit "search_npc: query required")
        within_rate query
        world ← current_world
        res ← search_in world query
        note_search query
        done (
            stable (
              (lit "status", text_value (lit "found"))
              ∷ (lit "display_name", text_value res.display_name)
              ∷ (lit "slug", text_value res.slug)
              ∷ (lit "temperament", text_value res.temperament)
              ∷ (lit "current_status", text_value res.current_status)
              ∷ (lit "source", text_value res.source)
              ∷ (
                lit "hint",
                text_value
                    (lit "if you need this NPC in the current scene, follow up with update_state"),
              )
              ∷ []))

  unfoldable pub call_set_currency : Fields → Do Payload
  unfolding field to_int call_named set_currency_tool
  call_set_currency args =
      let count = to_int (field (lit "count") args) in
      call_named (lit "set_currency") (lit "recorded") ((lit "count", int_value count) ∷ [])
        (λ character name. set_currency_tool character name count) args
