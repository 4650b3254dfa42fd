-- ===== src/Tools/Character.antt =====
-- internal/usecase/tools/files/character.go over internal/repository/yaml/character_yaml.go: the four files of a
-- character. Logs are left out, and so is the resolver of the active world, which nothing calls.
pub mod Facts
use narrative_ai_agent.Prelude.{
  ℕ, ◌-◌, Bool, true, false, not, ◌||◌, Option, none, some, List, [], ◌∷◌, ◌++◌, if◌then◌else◌, leb,
  ◌==◌, length, take, Result, ok, err, map,
}
use narrative_ai_agent.Prelude.Int.{ℤ, pos}
use narrative_ai_agent.Prelude.Text.{Text, lit, is_empty, trim_space, text_eq, contains_text, join}
use narrative_ai_agent.CharacterProfile.{
  Soul, Base, append_soul, append_base, skill_fixed_sections, memory_fixed_sections,
}
use narrative_ai_agent.Inventory.{
  Inventory, Item, append_item, remove_item, set_currency, remove_currency,
}
use narrative_ai_agent.Repositories.{StateSnapshot, update}
use narrative_ai_agent.Repositories.Plan.{lines}

pub data CharacterFile : Type 0 where
  soul_file : CharacterFile
  skill_file : CharacterFile
  memory_file : CharacterFile
  inventory_file : CharacterFile

pub data CharacterError : Type 0 where
  unknown_character_file : CharacterError
  empty_section : CharacterError
  empty_append : CharacterError
  no_active_character : CharacterError
  section_not_found : CharacterError
  unread_file : Text → CharacterError
  unwritten_file : CharacterError

-- What a Load of each file gives, by character; a blank file is the empty value. And which Save fails.
pub record CharacterFiles : Type 0 where
  pub souls : Text → Result Text Soul
  pub skills : Text → Result Text Base
  pub memories : Text → Result Text Base
  pub inventories : Text → Result Text Inventory
  pub file_fault : CharacterFile → Text → Bool

-- A call on the files.
abbrev pub Call : Type 0 → Type 0
Call A = CharacterFiles → Result CharacterError A × CharacterFiles

-- Load, change and Save, which the four repositories share: nothing is saved where nothing has changed.
unfoldable pub change_file :
    {A : Type 0}
    → Result Text A
    → (A → Bool × A)
    → Bool
    → (A → CharacterFiles → CharacterFiles)
    → Call Bool
change_file (err e) change faulty put s = (err (unread_file e), s)
change_file (ok a) change faulty put s =
    let (changed, a') = change a in
    if not changed
    then (ok false, s)
    else if faulty
    then (err unwritten_file, s)
    else (ok true, put a' s)

abbrev pub put_soul : Text → Soul → CharacterFiles → CharacterFiles
put_soul character a s = record s { souls = update s.souls character (ok a) }

abbrev pub put_skill : Text → Base → CharacterFiles → CharacterFiles
put_skill character a s = record s { skills = update s.skills character (ok a) }

abbrev pub put_memory : Text → Base → CharacterFiles → CharacterFiles
put_memory character a s = record s { memories = update s.memories character (ok a) }

abbrev pub put_inventory : Text → Inventory → CharacterFiles → CharacterFiles
put_inventory character a s = record s { inventories = update s.inventories character (ok a) }

-- `AppendSection` of the three repositories.
unfoldable pub append_soul_section : Text → Text → Text → Call Bool
unfolding change_file
append_soul_section character section value s =
    change_file (s.souls character) (append_soul section value) (s.file_fault soul_file character)
      (put_soul character) s

unfoldable pub append_skill_section : Text → Text → Text → Call Bool
unfolding change_file
append_skill_section character section value s =
    change_file (s.skills character) (append_base section value) (s.file_fault skill_file character)
      (put_skill character) s

unfoldable pub append_memory_section : Text → Text → Text → Call Bool
unfolding change_file
append_memory_section character section value s =
    change_file (s.memories character) (append_base section value)
      (s.file_fault memory_file character) (put_memory character) s

abbrev pub flipped : {A : Type 0} → A × Bool → Bool × A
flipped (a, changed) = (changed, a)

-- What is not there is not removed.
abbrev pub removed : {A : Type 0} → A → Option A → Bool × A
removed a none = (false, a)
removed a (some a') = (true, a')

-- `InventoryYaml`.
unfoldable pub change_inventory : Text → (Inventory → Bool × Inventory) → Call Bool
unfolding change_file
change_inventory character change s =
    change_file (s.inventories character) change (s.file_fault inventory_file character)
      (put_inventory character) s

unfoldable pub fail : {A : Type 0} → CharacterError → Call A
fail e s = (err e, s)

-- The guards that the three methods on a section begin with.
unfoldable pub with_section : Text → Text → Text → Call Bool → Call Bool
unfolding trim_space fail
with_section character section value call =
    if is_empty character
    then fail no_active_character
    else if is_empty (trim_space section)
    then fail empty_section
    else if is_empty (trim_space value)
    then fail empty_append
    else call

unfoldable pub append_soul_tool : Text → Text → Text → Call Bool
unfolding with_section append_soul_section
append_soul_tool character section value =
    with_section character section value (append_soul_section character section value)

unfoldable pub append_skill_tool : Text → Text → Text → Call Bool
unfolding with_section append_skill_section fail text_eq
append_skill_tool character section value = with_section character section value (
    if contains_text skill_fixed_sections section
    then append_skill_section character section value
    else fail section_not_found)

unfoldable pub append_memory_tool : Text → Text → Text → Call Bool
unfolding with_section append_memory_section fail text_eq
append_memory_tool character section value = with_section character section value (
    if contains_text memory_fixed_sections section
    then append_memory_section character section value
    else fail section_not_found)

-- The guards of the four methods on the inventory.
unfoldable pub with_name : {A : Type 0} → Text → Text → Call A → Call A
unfolding trim_space fail
with_name character name call =
    if is_empty character
    then fail no_active_character
    else if is_empty (trim_space name)
    then fail empty_section
    else call

unfoldable pub append_inventory_item : Text → Item → Call Bool
unfolding with_name change_inventory append_item
append_inventory_item character item =
    with_name character item.name
      (change_inventory character (λ inv. flipped (append_item inv item)))

unfoldable pub remove_inventory_item : Text → Text → Call Bool
unfolding with_name change_inventory remove_item
remove_inventory_item character name =
    with_name character name
      (change_inventory character (λ inv. removed inv (remove_item inv name)))

unfoldable pub set_currency_tool : Text → Text → ℤ → Call Bool
unfolding with_name change_inventory set_currency
set_currency_tool character name count =
    with_name character name
      (change_inventory character (λ inv. flipped (set_currency inv name count)))

unfoldable pub remove_currency_tool : Text → Text → Call Bool
unfolding with_name change_inventory remove_currency
remove_currency_tool character name =
    with_name character name
      (change_inventory character (λ inv. removed inv (remove_currency inv name)))

module _ (to_lower : ℕ → ℕ) where
  -- `Append`, the one method of the older tool.
  unfoldable append_tool : Text → Text → Text → Text → Call Bool
  unfolding append_soul_tool append_skill_tool append_memory_tool fail text_eq
  append_tool character file section value =
      let kind = map to_lower file in
      if text_eq kind (lit "soul")
      then append_soul_tool character section value
      else if text_eq kind (lit "skill")
      then append_skill_tool character section value
      else if text_eq kind (lit "memory")
      then append_memory_tool character section value
      else fail unknown_character_file

pub record CharacterSnapshot : Type 0 where
  pub character : Text
  pub world : Text
  pub soul : Text
  pub skill : Text
  pub memory : Text
  pub inventory : Text
  pub state : Text
  pub day : ℤ

-- The templates and the YAML library, by file.
pub record Rendering : Type 0 where
  pub save_soul : Soul → Result Text Text
  pub save_skill : Base → Result Text Text
  pub save_memory : Base → Result Text Text
  pub save_inventory : Inventory → Result Text Text
  pub render_state : StateSnapshot → Result Text Text
  pub show_int : ℤ → Text

-- The body, empty where the load or the rendering fails.
abbrev body_or_empty : {A : Type 0} → (A → Result Text Text) → Result Text A → Text
body_or_empty save (err e) = []
body_or_empty save (ok a) = elim (save a) [ ok body ↦ body | err e ↦ [] ]

abbrev day_or_zero : Result Text StateSnapshot → ℤ
day_or_zero (err e) = pos 0
day_or_zero (ok st) = st.day

unfoldable read_character :
    Rendering
    → (Text → Result Text StateSnapshot)
    → Text
    → Text
    → CharacterFiles
    → Result CharacterError CharacterSnapshot
read_character r states active_char active_world s =
    if is_empty active_char
    then err no_active_character
    else ok (record {
      character = active_char;
      world = active_world;
      soul = body_or_empty r.save_soul (s.souls active_char);
      skill = body_or_empty r.save_skill (s.skills active_char);
      memory = body_or_empty r.save_memory (s.memories active_char);
      inventory = body_or_empty r.save_inventory (s.inventories active_char);
      state =
          if is_empty active_world then [] else body_or_empty r.render_state (states active_world);
      day = if is_empty active_world then pos 0 else day_or_zero (states active_world);
    })

-- `truncateForMe`, with `maxLines` at least 0.
unfoldable truncate_for_me : (ℤ → Text) → Text → ℕ → Text
unfolding lines join
truncate_for_me show_int s max_lines =
    if max_lines == 0 || leb (length (lines s)) max_lines
    then s
    else join (lit "\n") (take max_lines (lines s))
      ++ lit "\n[…+"
      ++ show_int (pos (length (lines s) - max_lines))
      ++ lit " строк обрезано…]"

snapshot_section : (ℤ → Text) → ℕ → Text → Text → Text
unfolding truncate_for_me
snapshot_section show_int max_per_section title body =
    if is_empty body
    then lit "## " ++ title ++ lit "\n_(пусто)_\n\n"
    else lit "## "
      ++ title
      ++ lit "\n"
      ++ truncate_for_me show_int body max_per_section
      ++ lit "\n\n"

unfoldable format_snapshot : (ℤ → Text) → Option CharacterSnapshot → ℕ → Text
unfolding snapshot_section trim_space
format_snapshot show_int none max_per_section = lit "Нет активного персонажа. Запустите /launch."
format_snapshot show_int (some s) max_per_section =
    let part = snapshot_section show_int max_per_section in
    trim_space (
      lit "**Персонаж: "
      ++ s.character
      ++ lit "**\n"
      ++ (if is_empty s.world
          then lit "**Мир: —**\n\n"
          else lit "**Мир: " ++ s.world ++ lit "** (день " ++ show_int s.day ++ lit ")\n\n")
      ++ part (lit "SOUL.yaml (сущность)") s.soul
      ++ part (lit "skill.yaml (навыки)") s.skill
      ++ part (lit "memory.yaml (яркие воспоминания)") s.memory
      ++ part (lit "inventory.yaml (что в карманах)") s.inventory
      ++ part (lit "state.md (текущий момент)") s.state)
