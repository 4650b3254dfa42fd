-- ===== src/Tools/Calls/Kept/Handlers.antt =====
-- The cases of the dispatcher of tools lose no fact, but for the end of a day.
use narrative_ai_agent.Prelude.{
  ◌≡◌, ◌⊎◌, inl, inr, Bool, true, false, Bool-cases, Option, List, [], ◌∷◌, map, All, if◌then◌else◌,
  arith,
}
use narrative_ai_agent.Prelude.Text.{Text, lit, text_eq}
use narrative_ai_agent.Session.{start}
use narrative_ai_agent.Tools.State.{update_state}
use narrative_ai_agent.Tools.Character.{
  Call, append_soul_tool, append_skill_tool, append_memory_tool, remove_inventory_item,
  remove_currency_tool,
}
use narrative_ai_agent.Tools.Calls.{Payload, Fields, World, Do, done, attempt, on_store, Backend}
use narrative_ai_agent.Tools.Calls.Scenes.{
  call_end_scene, call_maintain_lore, call_update_state, call_rotate_plan, call_leave_world,
  run_scene_update, scene_update, forget_chats, forget_chat,
}
use narrative_ai_agent.Tools.Calls.People.{
  call_create_npc, call_append, call_update_inventory, call_named, call_set_currency,
  call_update_npc, call_search_npc, within_rate, search_in, note_search,
}
use narrative_ai_agent.Tools.Calls.Dispatch.{handlers, handled}
use narrative_ai_agent.Tools.Calls.Kept.{
  steps, Keeps, Keeps-refl, Safe, done-Safe, refuse-Safe, on_store-Safe, attempt-Safe, needs-Safe,
  run_create_npc-Safe, run_update_npc-Safe, with_character-Safe,
}
use narrative_ai_agent.Tools.Calls.Kept.Growing.{
  Grows, soul-Grows, skill-Grows, memory-Grows, item-Grows, drop_item-Grows, currency-Grows,
  drop_currency-Grows,
}

-- A call that leaves the files as they are.
still-Safe : {A : Type 0} (m : Do A) → ((w : World) → Keeps w (m w).1) → Safe m
still-Safe m keeps = record { keeps = keeps }

or_start-Safe :
    (given : Bool) → Safe (if given then done tt else attempt (on_store start) (λ r. done tt))
or_start-Safe true = done-Safe tt
or_start-Safe false = attempt-Safe _ _ (on_store-Safe start) (λ r. done-Safe tt)

module _ (b : Backend) where
  forget_chats-Safe : Safe (forget_chats b)
  unfolding forget_chats
  forget_chats-Safe = still-Safe _ (λ w. Keeps-refl w)

  forget_chat-Safe : (chat : Text) → Safe (forget_chat b chat)
  unfolding forget_chat
  forget_chat-Safe chat = still-Safe _ (λ w. Keeps-refl w)

  note_search-Safe : (query : Text) → Safe (note_search b query)
  unfolding note_search
  note_search-Safe query = still-Safe _ (λ w. Keeps-refl w)

  within_rate-Safe : (query : Text) → Safe (within_rate b query)
  unfolding within_rate
  within_rate-Safe query = still-Safe _ (λ w. (needs-Safe _ _).keeps w)

  search_in-Safe : (world query : Text) → Safe (search_in b world query)
  unfolding search_in
  search_in-Safe world query = still-Safe _ (λ w. Keeps-refl w)

  call_end_scene-Safe : (args : Fields) → Safe (call_end_scene b args)
  unfolding call_end_scene
  call_end_scene-Safe args = search (steps, or_start-Safe, forget_chats-Safe) depth 12

  call_maintain_lore-Safe : Safe (call_maintain_lore b)
  unfolding call_maintain_lore
  call_maintain_lore-Safe = search (steps)

  pub run_scene_update-Safe :
      (in_flight : Bool) (moment : Text) (npcs : Option (List Text)) (events : List Text)
      → Safe (run_scene_update b in_flight moment npcs events)
  unfolding run_scene_update
  run_scene_update-Safe in_flight moment npcs events = record {
    keeps = λ w.
        (on_store-Safe (
            update_state (map b.to_lower) b.render
              (scene_update b in_flight moment npcs events w.day))).keeps
          w;
  }

  call_update_state-Safe : (args : Fields) → Safe (call_update_state b args)
  unfolding call_update_state
  call_update_state-Safe args = search (steps, run_scene_update-Safe)

  call_rotate_plan-Safe : (args : Fields) → Safe (call_rotate_plan b args)
  unfolding call_rotate_plan
  call_rotate_plan-Safe args = search (steps)

  call_leave_world-Safe : (args : Fields) → Safe (call_leave_world b args)
  unfolding call_leave_world
  call_leave_world-Safe args = search (steps, forget_chat-Safe)

  call_create_npc-Safe : (args : Fields) → Safe (call_create_npc b args)
  unfolding call_create_npc
  call_create_npc-Safe args = search (steps, run_create_npc-Safe b)

  call_update_npc-Safe : (args : Fields) → Safe (call_update_npc b args)
  unfolding call_update_npc
  call_update_npc-Safe args = search (steps, run_update_npc-Safe b) depth 12

  call_search_npc-Safe : (args : Fields) → Safe (call_search_npc b args)
  unfolding call_search_npc
  call_search_npc-Safe args =
      search (steps, within_rate-Safe, search_in-Safe, note_search-Safe) depth 12

  call_append-Safe :
      (name file missing : Text) (act : Text → Text → Text → Call Bool) (args : Fields)
      → ((section value : Text) → Grows (λ character. act character section value))
      → Safe (call_append b name file missing act args)
  unfolding call_append
  call_append-Safe name file missing act args grows = search (steps, with_character-Safe b, grows)

  call_named-Safe :
      (tool status : Text) (more : Fields) (act : Text → Text → Call Bool) (args : Fields)
      → ((name : Text) → Grows (λ character. act character name))
      → Safe (call_named b tool status more act args)
  unfolding call_named
  call_named-Safe tool status more act args grows = search (steps, with_character-Safe b, grows)

  call_update_inventory-Safe : (args : Fields) → Safe (call_update_inventory b args)
  unfolding call_update_inventory
  call_update_inventory-Safe args = search (steps, with_character-Safe b, item-Grows)

  call_set_currency-Safe : (args : Fields) → Safe (call_set_currency b args)
  unfolding call_set_currency
  call_set_currency-Safe args = search (call_named-Safe, currency-Grows)

  -- A case is taken for another name, or it is safe.
  abbrev IsSafe : Text → Text × (Fields → Do Payload) → Type 0
  IsSafe name (n, run) = (text_eq n name ≡ false) ⊎ ((args : Fields) → Safe (run args))

  handled-Safe :
      (cases : List (Text × (Fields → Do Payload))) (name : Text) (args : Fields)
      → All (IsSafe name) cases
      → Safe (handled b cases name args)
  unfolding handled
  handled-Safe [] name args are = refuse-Safe _
  handled-Safe ((n, run) ∷ cases) name args are = elim (Bool-cases (text_eq n name)) [
    | inr other ↦ rw other (handled-Safe cases name args are.1)
    | inl this ↦ elim are.0 [
      | inl other ↦ ground (arith, this, other)
      | inr safe ↦ rw this (safe args)
    ]
  ]

  pub handlers-Safe :
      (name : Text) (args : Fields)
      → text_eq (lit "end_day") name ≡ false
      → Safe (handled b (handlers b) name args)
  unfolding handlers
  handlers-Safe name args differs = handled-Safe (handlers b) name args (
    inl differs,
    (
      inr call_end_scene-Safe,
      (
        inr (λ args. call_maintain_lore-Safe),
        (
          inr call_update_state-Safe,
          (
            inr call_rotate_plan-Safe,
            (
              inr call_create_npc-Safe,
              (
                inr call_leave_world-Safe,
                (
                  inr (λ args.
                      call_append-Safe (lit "update_soul") (lit "SOUL.yaml")
                        (lit ": append text required (no empty updates)") append_soul_tool args
                        soul-Grows),
                  (
                    inr (λ args.
                        call_append-Safe (lit "update_skill") (lit "skill.yaml")
                          (lit ": append text required") append_skill_tool args skill-Grows),
                    (
                      inr (λ args.
                          call_append-Safe (lit "update_memory") (lit "memory.yaml")
                            (lit ": append text required") append_memory_tool args memory-Grows),
                      (
                        inr call_update_inventory-Safe,
                        (
                          inr (λ args.
                              call_named-Safe (lit "remove_inventory_item") (lit "removed") []
                                remove_inventory_item args drop_item-Grows),
                          (
                            inr call_set_currency-Safe,
                            (
                              inr (λ args.
                                  call_named-Safe (lit "remove_currency") (lit "removed") []
                                    remove_currency_tool args drop_currency-Grows),
                              (inr call_update_npc-Safe, (inr call_search_npc-Safe, tt)),
                            ),
                          ),
                        ),
                      ),
                    ),
                  ),
                ),
              ),
            ),
          ),
        ),
      ),
    ),
  )
