-- ===== src/Tools/Calls/Directives.antt =====
-- `executeExtractedCommands` of internal/usecase/gm.go: the directives of an answer, run as the calls of tools are.
use narrative_ai_agent.Prelude.{
  ℕ, suc, Bool, Option, none, some, List, [], ◌∷◌, ◌++◌, if◌then◌else◌, Result, ok, err,
}
use narrative_ai_agent.Prelude.Text.{Text, lit, trim_space, text_eq, atoi_or_nearest}
use narrative_ai_agent.Directives.{Args, arg, ExtractedCommand, parse_bool_arg, split_csv}
use narrative_ai_agent.Repositories.Files.{append_entry}
use narrative_ai_agent.Tools.Npc.{NewProfile}
use narrative_ai_agent.Tools.Character.{
  Call, append_soul_tool, append_skill_tool, append_memory_tool, append_inventory_item,
  remove_inventory_item, set_currency_tool, remove_currency_tool,
}
use narrative_ai_agent.Tools.Calls.{
  Refusal, said, World, Do, done, refuse, ◌>>=◌, ◌>>◌, on_store, needs, is_full, Backend,
}
use narrative_ai_agent.Tools.Calls.Scenes.{run_scene_update}
use narrative_ai_agent.Tools.Calls.People.{run_create_npc, run_update_npc, with_character}

abbrev or_nil : Option (List Text) → List Text
or_nil none = []
or_nil (some ts) = ts

-- `AppendLore`.
unfoldable pub append_lore : Text → Text → Text → Do (Unit {0})
unfolding on_store append_entry
append_lore world header bullet = on_store (append_entry world header bullet)

module _ (b : Backend) where
  unfoldable pub update_npc_directive : Text → Args → Do (Unit {0})
  unfolding trim_space needs run_update_npc ◌>>=◌
  update_npc_directive world args =
      let name = trim_space (arg (lit "npc") args) in
      let section = trim_space (arg (lit "section") args) in
      let value = arg (lit "append") args in
      do
        needs (is_full name) (lit "update_npc: npc name required")
        needs (is_full section) (lit "update_npc: section required")
        needs (is_full (trim_space value))
            (lit "update_npc: append text required (no empty updates)")
        run_update_npc b world name section value

  unfoldable pub update_state_directive : Text → Args → Do (Unit {0})
  unfolding trim_space needs run_scene_update parse_bool_arg split_csv ◌>>=◌
  update_state_directive world args =
      let moment = trim_space (arg (lit "moment") args) in
      do
        needs (is_full moment) (lit "update_state: moment required")
        run_scene_update b (parse_bool_arg b.to_lower (arg (lit "in_flight") args)) moment
            (split_csv (arg (lit "npcs") args)) (or_nil (split_csv (arg (lit "events") args)))

  unfoldable pub append_lore_directive : Text → Args → Do (Unit {0})
  unfolding trim_space needs append_lore ◌>>=◌
  append_lore_directive world args =
      let header = trim_space (arg (lit "header") args) in
      let bullet = trim_space (arg (lit "bullet") args) in
      do
        needs (is_full header) (lit "append_lore: header and bullet required")
        needs (is_full bullet) (lit "append_lore: header and bullet required")
        append_lore world header bullet

  -- The three directives on the sections of a file.
  unfoldable pub append_directive : Text → (Text → Text → Text → Call Bool) → Args → Do (Unit {0})
  unfolding trim_space needs with_character done ◌>>=◌
  append_directive name act args =
      let section = trim_space (arg (lit "section") args) in
      let value = arg (lit "append") args in
      do
        needs (is_full section) (name ++ lit ": section required")
        needs (is_full (trim_space value)) (name ++ lit ": append text required (no empty updates)")
        with_character b (λ character. act character section value)
        done tt

  unfoldable pub update_inventory_directive : Args → Do (Unit {0})
  unfolding trim_space needs with_character append_inventory_item parse_bool_arg done ◌>>=◌
  update_inventory_directive args =
      let name = trim_space (arg (lit "name") args) in
      do
        needs (is_full name) (lit "update_inventory: name required")
        needs (is_full (trim_space (arg (lit "type") args))) (lit "update_inventory: type required")
        with_character b (λ character. append_inventory_item character (record {
          name = name;
          description = arg (lit "description") args;
          equip = parse_bool_arg b.to_lower (arg (lit "equip") args);
          special = arg (lit "special") args;
        }))
        done tt

  -- The three directives that need a name alone.
  unfoldable pub named_directive : Text → (Text → Text → Call Bool) → Args → Do (Unit {0})
  unfolding trim_space needs with_character done ◌>>=◌
  named_directive tool act args =
      let name = trim_space (arg (lit "name") args) in
      do
        needs (is_full name) (tool ++ lit ": name required")
        with_character b (λ character. act character name)
        done tt

  unfoldable pub set_currency_directive : Args → Do (Unit {0})
  unfolding named_directive set_currency_tool atoi_or_nearest
  set_currency_directive args =
      named_directive (lit "set_currency")
        (λ character name.
          set_currency_tool character name (atoi_or_nearest (arg (lit "count") args)))
        args

  unfoldable npc_spec_of : Args → NewProfile
  unfolding trim_space
  npc_spec_of args = record {
    display_name = trim_space (arg (lit "display_name") args);
    nicknames = [];
    temperament = trim_space (arg (lit "temperament") args);
    relations = trim_space (arg (lit "relations") args);
    abilities = trim_space (arg (lit "abilities") args) ∷ [];
    personal_memory = [];
    current_status = [];
    critical_knowledge = [];
    last_update = [];
  }

  unfoldable pub create_npc_directive : Text → Args → Do (Unit {0})
  unfolding trim_space needs run_create_npc npc_spec_of ◌>>=◌
  create_npc_directive world args = do
    needs (is_full (trim_space (arg (lit "display_name") args)))
        (lit "create_npc: display_name and file_slug required")
    needs (is_full (trim_space (arg (lit "file_slug") args)))
        (lit "create_npc: display_name and file_slug required")
    run_create_npc b world (npc_spec_of args)

  -- The cases of the `switch`, in order.
  unfoldable pub directive_handlers : Text → List (Text × (Args → Do (Unit {0})))
  unfolding update_npc_directive update_state_directive append_lore_directive append_directive
      update_inventory_directive named_directive set_currency_directive create_npc_directive
      append_soul_tool append_skill_tool append_memory_tool remove_inventory_item
      remove_currency_tool
  directive_handlers world =
      (lit "update_npc", update_npc_directive world)
      ∷ (lit "update_state", update_state_directive world)
      ∷ (lit "append_lore", append_lore_directive world)
      ∷ (lit "update_soul", append_directive (lit "update_soul") append_soul_tool)
      ∷ (lit "update_skill", append_directive (lit "update_skill") append_skill_tool)
      ∷ (lit "update_memory", append_directive (lit "update_memory") append_memory_tool)
      ∷ (lit "update_inventory", update_inventory_directive)
      ∷ (
        lit "remove_inventory_item",
        named_directive (lit "remove_inventory_item") remove_inventory_item,
      )
      ∷ (lit "set_currency", set_currency_directive)
      ∷ (lit "remove_currency", named_directive (lit "remove_currency") remove_currency_tool)
      ∷ (lit "create_npc", create_npc_directive world)
      ∷ []

  unfoldable pub run_directive : List (Text × (Args → Do (Unit {0}))) → Text → Args → Do (Unit {0})
  unfolding text_eq refuse
  run_directive [] kind args = refuse (said (lit "unknown kind"))
  run_directive ((k, run) ∷ more) kind args =
      let later = run_directive more kind args in if text_eq k kind then run args else later

  -- One more directive that was executed, or one more that failed.
  abbrev counted_in : Result Refusal (Unit {0}) → ℕ × ℕ → ℕ × ℕ
  counted_in (ok u) (executed, failed) = (suc executed, failed)
  counted_in (err e) (executed, failed) = (executed, suc failed)

  -- The counts of the executed and of the failed ones; a failure does not stop the rest.
  unfoldable pub execute_extracted_commands : Text → List ExtractedCommand → World → (ℕ × ℕ) × World
  unfolding run_directive directive_handlers
  execute_extracted_commands world [] w = ((0, 0), w)
  execute_extracted_commands world (c ∷ cs) w =
      let (r, w') = run_directive (directive_handlers world) c.kind c.args w in
      let (counts, w'') = execute_extracted_commands world cs w' in (counted_in r counts, w'')
