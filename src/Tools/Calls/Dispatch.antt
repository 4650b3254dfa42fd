-- ===== src/Tools/Calls/Dispatch.antt =====
-- `dispatchOneTool` of internal/usecase/gm.go: the `switch` on the name of a call.
use narrative_ai_agent.Prelude.{List, [], ◌∷◌, ◌++◌, if◌then◌else◌, Result, ok, err}
use narrative_ai_agent.Prelude.Text.{Text, lit, text_eq}
use narrative_ai_agent.Tools.Character.{
  append_soul_tool, append_skill_tool, append_memory_tool, remove_inventory_item,
  remove_currency_tool,
}
use narrative_ai_agent.Tools.Calls.{Fields, said, Payload, Do, refuse, Backend, Refusal, World}
use narrative_ai_agent.Conversation.{ToolCall}
use narrative_ai_agent.Tools.Calls.Scenes.{
  call_end_day, call_end_scene, call_maintain_lore, call_update_state, call_rotate_plan,
  call_leave_world,
}
use narrative_ai_agent.Tools.Calls.People.{
  call_create_npc, call_append, call_update_inventory, call_named, call_set_currency,
  call_update_npc, call_search_npc,
}

module _ (b : Backend) where
  -- The cases of the `switch`, in order.
  unfoldable pub handlers : List (Text × (Fields → Do Payload))
  unfolding call_end_day call_end_scene call_maintain_lore call_update_state call_rotate_plan
      call_create_npc call_leave_world call_append call_update_inventory call_named
      call_set_currency call_update_npc call_search_npc append_soul_tool append_skill_tool
      append_memory_tool remove_inventory_item remove_currency_tool
  handlers =
      (lit "end_day", call_end_day b)
      ∷ (lit "end_scene", call_end_scene b)
      ∷ (lit "maintain_lore", λ args. call_maintain_lore b)
      ∷ (lit "update_state", call_update_state b)
      ∷ (lit "rotate_plan", call_rotate_plan b)
      ∷ (lit "create_npc", call_create_npc b)
      ∷ (lit "leave_world", call_leave_world b)
      ∷ (
        lit "update_soul",
        call_append b (lit "update_soul") (lit "SOUL.yaml")
            (lit ": append text required (no empty updates)") append_soul_tool,
      )
      ∷ (
        lit "update_skill",
        call_append b (lit "update_skill") (lit "skill.yaml") (lit ": append text required")
            append_skill_tool,
      )
      ∷ (
        lit "update_memory",
        call_append b (lit "update_memory") (lit "memory.yaml") (lit ": append text required")
            append_memory_tool,
      )
      ∷ (lit "update_inventory", call_update_inventory b)
      ∷ (
        lit "remove_inventory_item",
        call_named b (lit "remove_inventory_item") (lit "removed") [] remove_inventory_item,
      )
      ∷ (lit "set_currency", call_set_currency b)
      ∷ (
        lit "remove_currency",
        call_named b (lit "remove_currency") (lit "removed") [] remove_currency_tool,
      )
      ∷ (lit "update_npc", call_update_npc b)
      ∷ (lit "search_npc", call_search_npc b)
      ∷ []

  -- The first case with this name.
  unfoldable pub handled : List (Text × (Fields → Do Payload)) → Text → Fields → Do Payload
  unfolding text_eq refuse
  handled [] name args = refuse (said (lit "unknown tool: " ++ name))
  handled ((n, run) ∷ more) name args =
      let later = handled more name args in if text_eq n name then run args else later

  unfoldable pub dispatch_named : Text → Result Text Fields → Do Payload
  unfolding handled handlers refuse
  dispatch_named name (err e) = refuse (said (lit "invalid arguments: " ++ e))
  dispatch_named name (ok args) = handled handlers name args

  -- The content of the message of a call: what it answers, and nothing where it is refused.
  abbrev content_of : (Payload → Text) → Result Refusal Payload → Text
  content_of ok_json (ok answer) = ok_json answer
  content_of ok_json (err e) = []

  -- A call as `executeTools` has it, with the JSON library: the `dispatch` of the services of a turn.
  unfoldable dispatch_one_tool :
      (Text → Result Text Fields) → (Payload → Text) → ToolCall → World → Text × World
  unfolding dispatch_named
  dispatch_one_tool unmarshal ok_json tc w =
      let (r, w') = dispatch_named tc.function.name (unmarshal tc.function.arguments) w in
      (content_of ok_json r, w')
