-- ===== src/Tools/Calls/Kept/Growing.antt =====
-- The edits of the files of a character lose no fact.
use narrative_ai_agent.Prelude.{Bool}
use narrative_ai_agent.Prelude.Text.{Text}
use narrative_ai_agent.Prelude.Int.{ℤ}
use narrative_ai_agent.Inventory.{Item}
use narrative_ai_agent.Tools.Character.{
  CharacterFiles, Call, append_soul_tool, append_skill_tool, append_memory_tool,
  append_inventory_item, remove_inventory_item, set_currency_tool, remove_currency_tool,
}
use narrative_ai_agent.Tools.Character.Facts.{
  Grown, soul_call, skill_call, memory_call, item_call, drop_item_call, currency_call,
  drop_currency_call, run_character_call, run_character_call-Grown,
}

abbrev pub Grows : (Text → Call Bool) → Type 0
Grows act = (character : Text) (s : CharacterFiles) → Grown s (act character s).1

pub soul-Grows :
    (section value : Text) → Grows (λ character. append_soul_tool character section value)
unfolding run_character_call
soul-Grows section value character = run_character_call-Grown (soul_call character section value)

pub skill-Grows :
    (section value : Text) → Grows (λ character. append_skill_tool character section value)
unfolding run_character_call
skill-Grows section value character = run_character_call-Grown (skill_call character section value)

pub memory-Grows :
    (section value : Text) → Grows (λ character. append_memory_tool character section value)
unfolding run_character_call
memory-Grows section value character =
    run_character_call-Grown (memory_call character section value)

pub item-Grows : (item : Item) → Grows (λ character. append_inventory_item character item)
unfolding run_character_call
item-Grows item character = run_character_call-Grown (item_call character item)

pub drop_item-Grows : (name : Text) → Grows (λ character. remove_inventory_item character name)
unfolding run_character_call
drop_item-Grows name character = run_character_call-Grown (drop_item_call character name)

pub currency-Grows :
    (count : ℤ) (name : Text) → Grows (λ character. set_currency_tool character name count)
unfolding run_character_call
currency-Grows count name character = run_character_call-Grown (currency_call character name count)

pub drop_currency-Grows : (name : Text) → Grows (λ character. remove_currency_tool character name)
unfolding run_character_call
drop_currency-Grows name character = run_character_call-Grown (drop_currency_call character name)
