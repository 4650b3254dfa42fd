-- ===== src/Tools/Calls.antt =====
-- The calls of the tools in internal/usecase/gm.go: their arguments, what they answer, and the state that they act on. The
-- tools are taken to be wired. The JSON library is a parameter, and a number of an argument is the integer that `int`
-- makes of it.
pub mod Scenes
pub mod People
pub mod Dispatch
pub mod Directives
pub mod Kept
pub mod Agree
pub mod Clears
use narrative_ai_agent.Prelude.{
  ℕ, ◌-◌, ◌==◌, ltb, Bool, true, false, not, ◌&&◌, ◌||◌, Option, none, some, List, [], ◌∷◌, ◌++◌,
  if◌then◌else◌, keep, map, is_nil, Result, ok, err,
}
use narrative_ai_agent.Prelude.Int.{ℤ, pos, eqb_ℤ}
use narrative_ai_agent.Prelude.Text.{Text, lit, is_empty, trim_space, text_eq, atoi_or_nearest}
use narrative_ai_agent.Prelude.Find.{split_on}
use narrative_ai_agent.Staging.Days.{StagingFile}
use narrative_ai_agent.Inventory.{Item}
use narrative_ai_agent.WorldRegistry.{Entry}
use narrative_ai_agent.Repositories.{Store, StateSnapshot, Info, Action, Error, invalidate, update}
use narrative_ai_agent.Session.{SessionContext, start}
use narrative_ai_agent.Tools.Archive.{Hooks, archive_chronicle_day}
use narrative_ai_agent.Tools.Stage.{apply_pending_stage_tool}
use narrative_ai_agent.Tools.State.{StateUpdate, update_state}
use narrative_ai_agent.Tools.World.{leave, LeaveResult}
use narrative_ai_agent.Tools.Scene.{EndSceneResult, end_scene, rotate_plan}
use narrative_ai_agent.Tools.Npc.{
  NpcError, NpcFiles, NewProfile, SearchResult, create_npc, update_npc, search,
}
use narrative_ai_agent.Tools.Character.{
  CharacterError, CharacterFiles, Call, append_soul_tool, append_skill_tool, append_memory_tool,
  append_inventory_item, remove_inventory_item, set_currency_tool, remove_currency_tool,
}
use narrative_ai_agent.Tools.Maintain.{
  Maintenance, MaintainError, maintain_lore, maintain_npcs, maintain_character_memory,
}

-- A value of an argument, as `json.Unmarshal` gives it. An element of an array that is no text is `none`.
pub data Value : Type 0 where
  text_value : Text → Value
  int_value : ℤ → Value
  bool_value : Bool → Value
  array_value : List (Option Text) → Value
  other_value : Value

abbrev pub Fields : Type 0
Fields = List (Text × Value)

unfoldable pub field : Text → Fields → Value
unfolding text_eq
field key [] = other_value
field key ((k, v) ∷ args) = let later = field key args in if text_eq k key then v else later

abbrev pub to_text : Value → Text
to_text (text_value t) = t
to_text _ = []

unfoldable pub to_int : Value → ℤ
unfolding atoi_or_nearest
to_int (int_value n) = n
to_int (text_value t) = atoi_or_nearest t
to_int _ = pos 0

abbrev pub to_bool : Value → Bool
to_bool (bool_value b) = b
to_bool _ = false

abbrev texts_of : List (Option Text) → List Text
texts_of [] = []
texts_of (none ∷ ts) = texts_of ts
texts_of (some t ∷ ts) = t ∷ texts_of ts

unfoldable pub to_texts : Value → List Text
to_texts (array_value ts) = texts_of ts
to_texts _ = []

-- Why a call is refused.
pub data Refusal : Type 0 where
  said : Text → Refusal
  of_store : Error → Refusal
  of_npcs : NpcError → Refusal
  of_character : CharacterError → Refusal
  of_maintenance : MaintainError → Refusal

-- The argument of `okJSON`.
pub data Payload : Type 0 where
  plain : Text → Payload
  fields : Fields → Payload

-- The state that the calls act on: the files, the day of `g.stateSnapshot`, the chats that have a conversation, and the
-- turn of the last search of each query.
pub record World : Type 0 where
  pub store : Store
  pub npcs : NpcFiles
  pub characters : CharacterFiles
  pub day : ℤ
  pub chats : List Text
  pub searches : Text → Option ℕ
  pub turn_counter : ℕ
  pub rate_window : ℕ

abbrev pub Do : Type 0 → Type 0
Do A = World → Result Refusal A × World

unfoldable pub done : {A : Type 0} → A → Do A
done a w = (ok a, w)

unfoldable pub refuse : {A : Type 0} → Refusal → Do A
refuse e w = (err e, w)

abbrev pub go_on : {A B : Type 0} → Result Refusal A → (A → Do B) → Do B
go_on (ok a) f w = f a w
go_on (err e) f w = (err e, w)

infixl 5 ◌>>=◌ ◌>>◌
unfoldable pub ◌>>=◌ : {A B : Type 0} → Do A → (A → Do B) → Do B
◌>>=◌ m f w = let (r, w') = m w in go_on r f w'

abbrev pub ◌>>◌ : {A B : Type 0} → Do A → Do B → Do B
m >> k = m >>= λ _. k

-- The call goes on with the result of the first one, an error included.
unfoldable pub attempt : {A B : Type 0} → Do A → (Result Refusal A → Do B) → Do B
attempt m f w = let (r, w') = m w in f r w'

abbrev pub as_refusal : {E A : Type 0} → (E → Refusal) → Result E A → Result Refusal A
as_refusal wrap (ok a) = ok a
as_refusal wrap (err e) = err (wrap e)

unfoldable pub on_store : {A : Type 0} → Action A → Do A
on_store act w = let (r, s) = act w.store in (as_refusal of_store r, record w { store = s })

abbrev pub NpcAction : Type 0 → Type 0
NpcAction A = NpcFiles → Result NpcError A × NpcFiles

unfoldable pub on_npcs : {A : Type 0} → NpcAction A → Do A
on_npcs act w = let (r, s) = act w.npcs in (as_refusal of_npcs r, record w { npcs = s })

unfoldable pub on_characters : {A : Type 0} → Call A → Do A
on_characters act w =
    let (r, s) = act w.characters in (as_refusal of_character r, record w { characters = s })

unfoldable pub needs : Bool → Text → Do (Unit {0})
unfolding done refuse
needs there what = if there then done tt else refuse (said what)

abbrev active_world_in : Result Text Info → Text
active_world_in (ok info) = info.active_world
active_world_in (err e) = []

-- `currentWorldName`.
unfoldable pub current_world : Do Text
current_world w = (ok (active_world_in w.store.info), w)

abbrev pub is_full : Text → Bool
is_full t = not (is_empty t)

-- A map as `okJSON` gets it, with the field that most of them end with.
abbrev pub stable : Fields → Payload
stable fs = fields (fs ++ ((lit "cache", text_value (lit "stable")) ∷ []))

-- What the calls are given from outside.
pub record Backend : Type 0 where
  pub to_lower : ℕ → ℕ
  pub equal_fold : Text → Text → Bool
  pub read_roster : Text → Result Text (List Entry)
  pub write_roster : List Entry → Result Text Text
  pub render : StateSnapshot → Result Text Text
  pub hooks : Hooks
  pub show_int : ℤ → Text
  pub read_staging : Text → Result Text StagingFile
  pub staging_files : Text → Result Text Text
  pub maintenance : Maintenance
