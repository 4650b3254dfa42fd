-- ===== src/Tools/Calls/Kept/Written.antt =====
-- The directives lose no fact.
use narrative_ai_agent.Prelude.{inl, inr, Bool, Bool-cases, List, [], ◌∷◌, All}
use narrative_ai_agent.Prelude.Text.{Text, lit, text_eq}
use narrative_ai_agent.Directives.{Args}
use narrative_ai_agent.Tools.Character.{
  Call, append_soul_tool, append_skill_tool, append_memory_tool, remove_inventory_item,
  remove_currency_tool,
}
use narrative_ai_agent.Tools.Calls.{Do, Backend}
use narrative_ai_agent.Tools.Calls.Directives.{
  append_lore, update_npc_directive, update_state_directive, append_lore_directive,
  append_directive, update_inventory_directive, named_directive, set_currency_directive,
  create_npc_directive, directive_handlers, run_directive,
}
use narrative_ai_agent.Tools.Calls.Kept.{
  steps, Safe, refuse-Safe, on_store-Safe, run_create_npc-Safe, run_update_npc-Safe,
  with_character-Safe,
}
use narrative_ai_agent.Tools.Calls.Kept.Growing.{
  Grows, soul-Grows, skill-Grows, memory-Grows, item-Grows, drop_item-Grows, currency-Grows,
  drop_currency-Grows,
}
use narrative_ai_agent.Tools.Calls.Kept.Handlers.{run_scene_update-Safe}

module _ (b : Backend) where
  append_lore-Safe : (world header bullet : Text) → Safe (append_lore world header bullet)
  unfolding append_lore
  append_lore-Safe world header bullet = on_store-Safe _

  update_npc_directive-Safe :
      (world : Text) (args : Args) → Safe (update_npc_directive b world args)
  unfolding update_npc_directive
  update_npc_directive-Safe world args = search (steps, run_update_npc-Safe b) depth 12

  update_state_directive-Safe :
      (world : Text) (args : Args) → Safe (update_state_directive b world args)
  unfolding update_state_directive
  update_state_directive-Safe world args = search (steps, run_scene_update-Safe b)

  append_lore_directive-Safe :
      (world : Text) (args : Args) → Safe (append_lore_directive b world args)
  unfolding append_lore_directive
  append_lore_directive-Safe world args = search (steps)

  append_directive-Safe :
      (name : Text) (act : Text → Text → Text → Call Bool) (args : Args)
      → ((section value : Text) → Grows (λ character. act character section value))
      → Safe (append_directive b name act args)
  unfolding append_directive
  append_directive-Safe name act args grows = search (steps, with_character-Safe b, grows)

  update_inventory_directive-Safe : (args : Args) → Safe (update_inventory_directive b args)
  unfolding update_inventory_directive
  update_inventory_directive-Safe args = search (steps, with_character-Safe b, item-Grows)

  named_directive-Safe :
      (tool : Text) (act : Text → Text → Call Bool) (args : Args)
      → ((name : Text) → Grows (λ character. act character name))
      → Safe (named_directive b tool act args)
  unfolding named_directive
  named_directive-Safe tool act args grows = search (steps, with_character-Safe b, grows)

  set_currency_directive-Safe : (args : Args) → Safe (set_currency_directive b args)
  unfolding set_currency_directive
  set_currency_directive-Safe args = search (named_directive-Safe, currency-Grows)

  create_npc_directive-Safe :
      (world : Text) (args : Args) → Safe (create_npc_directive b world args)
  unfolding create_npc_directive
  create_npc_directive-Safe world args = search (steps, run_create_npc-Safe b)

  abbrev IsSafeDirective : Text × (Args → Do (Unit {0})) → Type 0
  IsSafeDirective (k, run) = (args : Args) → Safe (run args)

  run_directive-Safe :
      (cases : List (Text × (Args → Do (Unit {0})))) (kind : Text) (args : Args)
      → All IsSafeDirective cases
      → Safe (run_directive b cases kind args)
  unfolding run_directive
  run_directive-Safe [] kind args are = refuse-Safe _
  run_directive-Safe ((k, run) ∷ cases) kind args are = elim (Bool-cases (text_eq k kind)) [
    | inr other ↦ rw other (run_directive-Safe cases kind args are.1)
    | inl this ↦ rw this (are.0 args)
  ]

  pub directive_handlers-Safe :
      (world kind : Text) (args : Args)
      → Safe (run_directive b (directive_handlers b world) kind args)
  unfolding directive_handlers
  directive_handlers-Safe world kind args =
      run_directive-Safe (directive_handlers b world) kind args (
        update_npc_directive-Safe world,
        (
          update_state_directive-Safe world,
          (
            append_lore_directive-Safe world,
            (
              λ args. append_directive-Safe (lit "update_soul") append_soul_tool args soul-Grows,
              (
                λ args.
                    append_directive-Safe (lit "update_skill") append_skill_tool args skill-Grows,
                (
                  λ args.
                      append_directive-Safe (lit "update_memory") append_memory_tool args
                        memory-Grows,
                  (
                    update_inventory_directive-Safe,
                    (
                      λ args.
                          named_directive-Safe (lit "remove_inventory_item") remove_inventory_item
                            args drop_item-Grows,
                      (
                        set_currency_directive-Safe,
                        (
                          λ args.
                              named_directive-Safe (lit "remove_currency") remove_currency_tool args
                                drop_currency-Grows,
                          (create_npc_directive-Safe world, tt),
                        ),
                      ),
                    ),
                  ),
                ),
              ),
            ),
          ),
        ),
      )
